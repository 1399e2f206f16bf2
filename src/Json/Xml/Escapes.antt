-- ===== src/Json/Xml/Escapes.antt =====
-- Texts that the reader of Json.Xml.Read understands piece by piece: escaped strings, plain text and
-- elements.
use dbslayer.Prelude.{
  ℕ, ◌≤◌, ◌<◌, ◌≡◌, ◌≢◌, refl, sym, ap, ◌∙◌, Bool, true, false, ◌||◌, List, [], ◌∷◌, ◌++◌,
  append_assoc, append-nil, Bytes, bytes_eq, ltb, ◌==◌, Bool-cases, if◌then◌else◌, map, not, subst,
  ==_iff, ltb→lt, inl, inr, All, arith, hex_value, some,
}
use dbslayer.Json.Xml.{xml_byte, xml_string}
use dbslayer.Json.Xml.Read.{
  Reader, Event, start_tag, end_tag, char, at, read, read_xml, finished, meaning,
}

-- the bytes of `t` are heard as `es`, whatever came before and whatever follows
pub ReadsAs : Bytes → List Event → Type 0
ReadsAs t es =
    (tags : List Bytes) (before : List Event) (rest : Bytes)
    → read (at tags before) (t ++ rest) ≡ read (at tags (before ++ es)) rest

abbrev pub element : Bytes → List Event → List Event
element tag es = start_tag tag ∷ (es ++ end_tag tag ∷ [])

-- what a string comes to: XML has no other control characters
abbrev pub is_kept : ℕ → Bool
is_kept c = c == 0x09 || c == 0x0a || c == 0x0d || not (ltb c 0x20)

unfoldable pub chars : Bytes → List Event
chars [] = []
chars (c ∷ cs) = if is_kept c then char c ∷ chars cs else chars cs

pub ReadsAs-nil : ReadsAs [] []
unfolding ReadsAs
ReadsAs-nil tags before rest = ap (λ es. read (at tags es) rest) (sym (append-nil before))

pub ReadsAs-append :
    (s t : Bytes) (es fs : List Event) → ReadsAs s es → ReadsAs t fs → ReadsAs (s ++ t) (es ++ fs)
unfolding ReadsAs
ReadsAs-append s t es fs h k tags before rest =
    ap (read (at tags before)) (append_assoc s t rest)
    ∙ h tags before (t ++ rest)
    ∙ k tags (before ++ es) rest
    ∙ ap (λ es. read (at tags es) rest) (append_assoc before es fs)

-- a byte that stands for itself
abbrev pub IsPlainByte : ℕ → Type 0
IsPlainByte c = (0x20 ≤ c) × (c ≢ b'<') × (c ≢ b'>') × (c ≢ b'&')

plain_lem :
    (c : ℕ) (r : Reader) (x y z w : Reader)
    → IsPlainByte c
    → (if c == b'<' then x else if c == b'&' then y else if ltb c 0x20 || c == b'>' then z else w)
      ≡ w
plain_lem c r x y z w (p, q, s, t) = ground (arith, p, q, s, t)

plain-ReadsAs : (c : ℕ) → IsPlainByte c → ReadsAs (c ∷ []) (char c ∷ [])
unfolding ReadsAs read
plain-ReadsAs c h tags before rest = ap (λ r. read r rest) (plain_lem c (at tags before) _ _ _ _ h)

pub text-ReadsAs : (t : Bytes) → All IsPlainByte t → ReadsAs t (map char t)
text-ReadsAs [] h = ReadsAs-nil
text-ReadsAs (c ∷ cs) (h, k) =
    ReadsAs-append (c ∷ []) cs (char c ∷ []) (map char cs) (plain-ReadsAs c h) (text-ReadsAs cs k)

abbrev IsOther : ℕ → Type 0
IsOther c = (c ≢ b'&') × (c ≢ b'<') × (c ≢ b'>') × (c ≢ 0x09) × (c ≢ 0x0a) × (c ≢ 0x0d)

eq_cases {ℓ} : (P : ℕ → Type ℓ) (c k : ℕ) → P k → (c ≢ k → P c) → P c
eq_cases P c k h n = elim (Bool-cases (c == k)) [
  | inl e ↦ subst P (sym ((==_iff c k).0 e)) h
  | inr e ↦ n (λ p. cc ((==_iff c k).1 p))
]

-- one of the bytes that are written as a reference, or another one
byte_cases {ℓ} :
    (P : ℕ → Type ℓ) (c : ℕ)
    → P b'&'
    → P b'<'
    → P b'>'
    → P 0x09
    → P 0x0a
    → P 0x0d
    → (IsOther c → P c)
    → P c
byte_cases P c amp lt gt tab nl cr other = eq_cases P c b'&' amp (λ p. eq_cases P c b'<' lt (λ q.
    eq_cases P c b'>' gt (λ r.
      eq_cases P c 0x09 tab
        (λ s. eq_cases P c 0x0a nl (λ t. eq_cases P c 0x0d cr (λ u. other (p, q, r, s, t, u)))))))

low_lem : (c : ℕ) → IsOther c → c < 0x20 → (xml_byte c ≡ []) × (is_kept c ≡ false)
unfolding xml_byte
low_lem c (p, q, r, s, t, u) h =
    (ground (arith, p, q, r, s, t, u, h), ground (arith, p, q, r, s, t, u, h))

high_lem : (c : ℕ) → IsOther c → 0x20 ≤ c → (xml_byte c ≡ c ∷ []) × (is_kept c ≡ true)
unfolding xml_byte
high_lem c (p, q, r, s, t, u) h =
    (ground (arith, p, q, r, s, t, u, h), ground (arith, p, q, r, s, t, u, h))

kept_eq :
    (c : ℕ) (t : Bytes) (b : Bool)
    → xml_byte c ≡ t
    → is_kept c ≡ b
    → ReadsAs t (if b then char c ∷ [] else [])
    → ReadsAs (xml_byte c) (if is_kept c then char c ∷ [] else [])
kept_eq c t b p q h = rw (p, q) h

other-ReadsAs : (c : ℕ) → IsOther c → ReadsAs (xml_byte c) (if is_kept c then char c ∷ [] else [])
other-ReadsAs c (p, q, r, s, t, u) = elim (Bool-cases (ltb c 0x20)) [
  | inl e ↦
      let (x, y) = low_lem c (p, q, r, s, t, u) (ltb→lt c 0x20 e) in
      kept_eq c [] false x y ReadsAs-nil
  | inr e ↦
      let high : 0x20 ≤ c = ground (arith, e) in
      let (x, y) = high_lem c (p, q, r, s, t, u) high in
      kept_eq c (c ∷ []) true x y (plain-ReadsAs c (high, q, r, p))
]

byte-ReadsAs : (c : ℕ) → ReadsAs (xml_byte c) (if is_kept c then char c ∷ [] else [])
unfolding ReadsAs read xml_byte meaning hex_value bytes_eq
byte-ReadsAs c =
    byte_cases (λ c. ReadsAs (xml_byte c) (if is_kept c then char c ∷ [] else [])) c
      (λ tags before rest. refl) (λ tags before rest. refl) (λ tags before rest. refl)
      (λ tags before rest. refl) (λ tags before rest. refl) (λ tags before rest. refl)
      (other-ReadsAs c)

chars_lem :
    (b : Bool) (c : ℕ) (es : List Event)
    → (if b then char c ∷ [] else []) ++ es ≡ (if b then char c ∷ es else es)
chars_lem true c es = refl
chars_lem false c es = refl

-- an escaped string is heard as the string without the control characters that XML cannot express
pub xml_string-ReadsAs : (s : Bytes) → ReadsAs (xml_string s) (chars s)
unfolding xml_string chars
xml_string-ReadsAs [] = ReadsAs-nil
xml_string-ReadsAs (c ∷ cs) =
    subst (ReadsAs (xml_byte c ++ xml_string cs)) (chars_lem (is_kept c) c (chars cs)) (
      ReadsAs-append (xml_byte c) (xml_string cs) _ (chars cs) (byte-ReadsAs c)
        (xml_string-ReadsAs cs))

-- the tags of the name `tag` open an element and close it
pub record IsTag (tag : Bytes) : Type 0 where
  pub opens :
      (tags : List Bytes) (before : List Event) (rest : Bytes)
      → read (at tags before) (b'<' ∷ (tag ++ b'>' ∷ rest))
        ≡ read (at (tag ∷ tags) (before ++ start_tag tag ∷ [])) rest
  pub closes :
      (tags : List Bytes) (before : List Event) (rest : Bytes)
      → read (at (tag ∷ tags) before) (b'<' ∷ b'/' ∷ (tag ++ b'>' ∷ rest))
        ≡ read (at tags (before ++ end_tag tag ∷ [])) rest

pub element-ReadsAs :
    (tag t : Bytes) (es : List Event)
    → IsTag tag
    → ReadsAs t es
    → ReadsAs
        ((b'<' ∷ (tag ++ b'>' ∷ [])) ++ (t ++ b'<' ∷ b'/' ∷ (tag ++ b'>' ∷ [])))
        (element tag es)
unfolding ReadsAs
element-ReadsAs tag t es h k tags before rest =
    ap (λ u. read (at tags before) (b'<' ∷ u))
      (append_assoc (tag ++ b'>' ∷ []) (t ++ b'<' ∷ b'/' ∷ (tag ++ b'>' ∷ [])) rest
        ∙ append_assoc tag (b'>' ∷ []) _)
    ∙ h.opens tags before ((t ++ b'<' ∷ b'/' ∷ (tag ++ b'>' ∷ [])) ++ rest)
    ∙ ap (read (at (tag ∷ tags) (before ++ start_tag tag ∷ [])))
        (append_assoc t (b'<' ∷ b'/' ∷ (tag ++ b'>' ∷ [])) rest)
    ∙ k (tag ∷ tags) (before ++ start_tag tag ∷ []) _
    ∙ ap (λ u. read (at (tag ∷ tags) ((before ++ start_tag tag ∷ []) ++ es)) (b'<' ∷ b'/' ∷ u))
        (append_assoc tag (b'>' ∷ []) rest)
    ∙ h.closes tags ((before ++ start_tag tag ∷ []) ++ es) rest
    ∙ ap (λ es. read (at tags es) rest)
        (append_assoc (before ++ start_tag tag ∷ []) es (end_tag tag ∷ [])
          ∙ append_assoc before (start_tag tag ∷ []) (es ++ end_tag tag ∷ []))

pub read_xml-ReadsAs : (t : Bytes) (es : List Event) → ReadsAs t es → read_xml t ≡ some es
unfolding ReadsAs read_xml read
read_xml-ReadsAs t es h =
    ap (λ u. let r = read (at [] []) u in finished r.mode r.open_tags r.heard) (sym (append-nil t))
    ∙ ap (λ r. finished r.mode r.open_tags r.heard) (h [] [] [])
