-- ===== src/Json/Xml/Document.antt =====
-- common/json2xml.c: objects, which the daemon answers with, and arrays that are not empty as documents.
use dbslayer.Prelude.{
  ℕ, suc, ◌≡◌, refl, ap, ◌∙◌, true, Bool-cases, inl, inr, List, [], ◌∷◌, ◌++◌, append_assoc, Bytes,
  codes, some, none, map, All, if◌then◌else◌,
}
use dbslayer.Json.Value.{
  Value, Items, Fields, object, array, string, long, longlong, double, boolean, null, no_items,
  item, no_fields, field,
}
use dbslayer.Json.Print.{print_long, print_boolean}
use dbslayer.Json.Xml.{xml_serialize}
use dbslayer.Json.Xml.Read.{Event, end_tag, char, rooted, one_root, if_document, read_document}
use dbslayer.Json.Xml.Escapes.{IsPlainByte, is_kept, element, chars}
use dbslayer.Json.Xml.RoundTrip.{events, item_events, field_events, read_xml-xml_serialize}

-- events that close what they open
Closes : List Event → Type 0
Closes es = (d : ℕ) (rest : List Event) → rooted (suc d) (es ++ rest) ≡ rooted (suc d) rest

Closes-append : (es fs : List Event) → Closes es → Closes fs → Closes (es ++ fs)
unfolding Closes
Closes-append es fs h k d rest =
    ap (rooted (suc d)) (append_assoc es fs rest) ∙ h d (fs ++ rest) ∙ k d rest

Closes-element : (tag : Bytes) (es : List Event) → Closes es → Closes (element tag es)
unfolding Closes rooted
Closes-element tag es h d rest =
    ap (rooted (suc (suc d))) (append_assoc es (end_tag tag ∷ []) rest)
    ∙ h (suc d) (end_tag tag ∷ rest)

Closes-text : (text : Bytes) → Closes (map char text)
unfolding Closes rooted
Closes-text [] d rest = refl
Closes-text (c ∷ cs) d rest = Closes-text cs d rest

Closes-chars : (text : Bytes) → Closes (chars text)
unfolding Closes rooted chars
Closes-chars [] d rest = refl
Closes-chars (c ∷ cs) d rest = elim (Bool-cases (is_kept c)) [
  | inl e ↦ rw e (Closes-chars cs d rest)
  | inr e ↦ rw e (Closes-chars cs d rest)
]

Closes-nil : Closes []
unfolding Closes
Closes-nil d rest = refl

-- a value that is written as an element
abbrev pub IsElement : Value → Type 0
IsElement (object fs) = Unit
IsElement (array (item v vs)) = Unit
IsElement v = ⊥

module _ (print_double : ℕ → Bytes) where
  mutual
    unfolding events

    events-Closes : (v : Value) → Closes (events print_double v)
    events-Closes (object fs) = Closes-element (codes "object") _ (field_events-Closes fs)
    events-Closes (array no_items) = Closes-text (codes "[]")
    events-Closes (array (item v vs)) =
        Closes-element (codes "array") _ (item_events-Closes (item v vs))
    events-Closes (string s) = Closes-chars s
    events-Closes (long n) = Closes-text (print_long n)
    events-Closes (longlong n) = Closes-text (print_long n)
    events-Closes (double d) = Closes-text (print_double d)
    events-Closes (boolean b) = Closes-text (print_boolean b)
    events-Closes null = Closes-text (codes "null")

    item_events-Closes : (vs : Items) → Closes (item_events print_double vs)
    item_events-Closes no_items = Closes-nil
    item_events-Closes (item v vs) =
        Closes-append _ _ (Closes-element (codes "item") _ (events-Closes v))
          (item_events-Closes vs)

    field_events-Closes : (fs : Fields) → Closes (field_events print_double fs)
    field_events-Closes no_fields = Closes-nil
    field_events-Closes (field k v fs) =
        Closes-append _ _ (Closes-element (codes "key") _ (Closes-chars k)) (
          Closes-append _ _ (Closes-element (codes "value") _ (events-Closes v))
            (field_events-Closes fs))

  element-one_root : (tag : Bytes) (es : List Event) → Closes es → one_root (element tag es) ≡ true
  unfolding Closes one_root rooted
  element-one_root tag es h = h 0 (end_tag tag ∷ [])

  events-one_root : (v : Value) → IsElement v → one_root (events print_double v) ≡ true
  unfolding events
  events-one_root (object fs) h = element-one_root (codes "object") _ (field_events-Closes fs)
  events-one_root (array (item v vs)) h =
      element-one_root (codes "array") _ (item_events-Closes (item v vs))
  events-one_root (array no_items) h = elim h [ ]
  events-one_root (string s) h = elim h [ ]
  events-one_root (long n) h = elim h [ ]
  events-one_root (longlong n) h = elim h [ ]
  events-one_root (double d) h = elim h [ ]
  events-one_root (boolean b) h = elim h [ ]
  events-one_root null h = elim h [ ]

  -- An object, or an array that is not empty, is written as an XML document, if `snprintf` of a double gives no
  -- `<`, `>`, `&` or control character: the text is one element with nothing around it, its tags close in their
  -- order, and it has only the references that XML has and no character that XML forbids below 0x80 (from there
  -- on, where the encoding begins, the reader takes every byte). A reader hears the value's elements in their
  -- order, and in them its strings, less the control characters that XML cannot express, and the texts of its
  -- numbers and literals.
  pub read_document-xml_serialize :
      ((d : ℕ) → All IsPlainByte (print_double d))
      → (v : Value) → IsElement v
      → read_document (xml_serialize print_double v) ≡ some (events print_double v)
  unfolding read_document
  read_document-xml_serialize plain v h =
      ap if_document (read_xml-xml_serialize print_double plain v)
      ∙ ap (λ b. if b then some (events print_double v) else none) (events-one_root v h)
