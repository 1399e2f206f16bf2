-- ===== src/Json/Xml/RoundTrip.antt =====
-- The XML of a value is well-formed, and is read as the value's elements and texts.
use dbslayer.Prelude.{
  ℕ, ◌+◌, ◌<◌, ◌≡◌, refl, Bool, true, false, List, [], ◌++◌, Bytes, bytes_eq, codes, map, All,
  arith, some,
}
use dbslayer.Json.Value.{
  ℤ, pos, negsuc, Value, Items, Fields, object, array, string, long, longlong, double, boolean,
  null, no_items, item, no_fields, field,
}
use dbslayer.Json.Print.{print_long, print_boolean}
use dbslayer.Json.RoundTrip.Chars.{digits-All}
use dbslayer.Json.Xml.{xml, xml_items, xml_fields, xml_serialize}
use dbslayer.Json.Xml.Read.{Event, char, read, read_xml}
use dbslayer.Json.Xml.Escapes.{
  ReadsAs, element, chars, IsPlainByte, IsTag, ReadsAs-nil, ReadsAs-append, text-ReadsAs,
  xml_string-ReadsAs, element-ReadsAs, read_xml-ReadsAs,
}

array-IsTag : IsTag (codes "array")
unfolding read bytes_eq
array-IsTag = record { opens = λ tags before rest. refl; closes = λ tags before rest. refl }

item-IsTag : IsTag (codes "item")
unfolding read bytes_eq
item-IsTag = record { opens = λ tags before rest. refl; closes = λ tags before rest. refl }

object-IsTag : IsTag (codes "object")
unfolding read bytes_eq
object-IsTag = record { opens = λ tags before rest. refl; closes = λ tags before rest. refl }

key-IsTag : IsTag (codes "key")
unfolding read bytes_eq
key-IsTag = record { opens = λ tags before rest. refl; closes = λ tags before rest. refl }

value-IsTag : IsTag (codes "value")
unfolding read bytes_eq
value-IsTag = record { opens = λ tags before rest. refl; closes = λ tags before rest. refl }

digit-IsPlainByte : (d : ℕ) → d < 10 → IsPlainByte (b'0' + d)
digit-IsPlainByte d h =
    (omega arith, λ p. omega (arith, p), λ p. omega (arith, p), λ p. omega (arith, p))

print_long-ArePlain : (n : ℤ) → All IsPlainByte (print_long n)
unfolding print_long
print_long-ArePlain (pos n) = digits-All IsPlainByte 20 n [] digit-IsPlainByte tt
print_long-ArePlain (negsuc n) = (
  (omega arith, λ p. omega (arith, p), λ p. omega (arith, p), λ p. omega (arith, p)),
  digits-All IsPlainByte 20 (n + 1) [] digit-IsPlainByte tt,
)

print_boolean-ReadsAs : (b : Bool) → ReadsAs (print_boolean b) (map char (print_boolean b))
print_boolean-ReadsAs b = text-ReadsAs (print_boolean b) (plain_lem b)
  where
    plain_lem : (b : Bool) → All IsPlainByte (print_boolean b)
    plain_lem true = ground arith
    plain_lem false = ground arith

module _ (print_double : ℕ → Bytes) where
  -- the elements and texts of a value
  unfoldable mutual
    pub events : Value → List Event
    events (object fs) = element (codes "object") (field_events fs)
    events (array no_items) = map char (codes "[]")
    events (array (item v vs)) = element (codes "array") (item_events (item v vs))
    events (string s) = chars s
    events (long n) = map char (print_long n)
    events (longlong n) = map char (print_long n)
    events (double d) = map char (print_double d)
    events (boolean b) = map char (print_boolean b)
    events null = map char (codes "null")

    pub item_events : Items → List Event
    item_events no_items = []
    item_events (item v vs) = element (codes "item") (events v) ++ item_events vs

    pub field_events : Fields → List Event
    field_events no_fields = []
    field_events (field k v fs) =
        element (codes "key") (chars k) ++ (element (codes "value") (events v) ++ field_events fs)

  module _ (plain : (d : ℕ) → All IsPlainByte (print_double d)) where
    mutual
      unfolding xml events

      xml-ReadsAs : (v : Value) → ReadsAs (xml print_double v) (events v)
      xml-ReadsAs (object no_fields) =
          element-ReadsAs (codes "object") [] [] object-IsTag ReadsAs-nil
      xml-ReadsAs (object (field k v fs)) =
          element-ReadsAs (codes "object") _ _ object-IsTag (xml_fields-ReadsAs (field k v fs))
      xml-ReadsAs (array no_items) = text-ReadsAs (codes "[]") (ground arith)
      xml-ReadsAs (array (item v vs)) =
          element-ReadsAs (codes "array") _ _ array-IsTag (xml_items-ReadsAs (item v vs))
      xml-ReadsAs (string s) = xml_string-ReadsAs s
      xml-ReadsAs (long n) = text-ReadsAs (print_long n) (print_long-ArePlain n)
      xml-ReadsAs (longlong n) = text-ReadsAs (print_long n) (print_long-ArePlain n)
      xml-ReadsAs (double d) = text-ReadsAs (print_double d) (plain d)
      xml-ReadsAs (boolean b) = print_boolean-ReadsAs b
      xml-ReadsAs null = text-ReadsAs (codes "null") (ground arith)

      xml_items-ReadsAs : (vs : Items) → ReadsAs (xml_items print_double vs) (item_events vs)
      xml_items-ReadsAs no_items = ReadsAs-nil
      xml_items-ReadsAs (item v vs) =
          ReadsAs-append _ _ _ _ (element-ReadsAs (codes "item") _ _ item-IsTag (xml-ReadsAs v))
            (xml_items-ReadsAs vs)

      xml_fields-ReadsAs : (fs : Fields) → ReadsAs (xml_fields print_double fs) (field_events fs)
      xml_fields-ReadsAs no_fields = ReadsAs-nil
      xml_fields-ReadsAs (field k v fs) =
          ReadsAs-append _ _ _ _
            (element-ReadsAs (codes "key") _ _ key-IsTag (xml_string-ReadsAs k))
            (ReadsAs-append _ _ _ _
              (element-ReadsAs (codes "value") _ _ value-IsTag (xml-ReadsAs v))
              (xml_fields-ReadsAs fs))

  -- the text of a value reads back as its elements and texts
  pub read_xml-xml_serialize :
      ((d : ℕ) → All IsPlainByte (print_double d))
      → (v : Value) → read_xml (xml_serialize print_double v) ≡ some (events v)
  read_xml-xml_serialize plain v = read_xml-ReadsAs _ (events v) (xml-ReadsAs plain v)
