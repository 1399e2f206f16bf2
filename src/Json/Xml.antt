-- ===== src/Json/Xml.antt =====
-- common/json2xml.c: a value as XML. `snprintf` of a double is an argument, and the brigade is the text
-- that is written to it.
pub mod Read
pub mod Escapes
pub mod RoundTrip
pub mod Document
mod Tests
use dbslayer.Prelude.{
  ℕ, ◌/◌, ◌%◌, Bool, true, false, ◌||◌, [], ◌∷◌, ◌++◌, Bytes, codes, ltb, ◌==◌, if◌then◌else◌,
  get_or,
}
use dbslayer.Json.Value.{
  Value, Items, Fields, object, array, string, long, longlong, double, boolean, null, no_items,
  item, no_fields, field,
}
use dbslayer.Json.Print.{print_long, print_boolean}

-- `hex[...]`
abbrev pub upper_digit : ℕ → ℕ
upper_digit d = get_or (codes "0123456789ABCDEF") d 0

unfoldable pub xml_byte : ℕ → Bytes
xml_byte c =
    if c == b'&'
    then codes "&amp;"
    else if c == b'<'
    then codes "&lt;"
    else if c == b'>'
    then codes "&gt;"
    else if c == 0x09 || c == 0x0a || c == 0x0d
    then codes "&#x" ++ upper_digit (c / 16 % 16) ∷ upper_digit (c % 16) ∷ b';' ∷ []
    else if ltb c 0x20
    then []
    else c ∷ []

-- `xml_string_serialize`
unfoldable pub xml_string : Bytes → Bytes
xml_string [] = []
xml_string (c ∷ cs) = xml_byte c ++ xml_string cs

module _ (print_double : ℕ → Bytes) where
  -- `xml_serialize_internal`, with the function of each type
  unfoldable mutual
    pub xml : Value → Bytes
    xml (object no_fields) = codes "<object></object>"
    xml (object (field k v fs)) =
        codes "<object>" ++ (xml_fields (field k v fs) ++ codes "</object>")
    xml (array no_items) = codes "[]"
    xml (array (item v vs)) = codes "<array>" ++ (xml_items (item v vs) ++ codes "</array>")
    xml (string s) = xml_string s
    xml (long n) = print_long n
    xml (longlong n) = print_long n
    xml (double d) = print_double d
    xml (boolean b) = print_boolean b
    xml null = codes "null"

    pub xml_items : Items → Bytes
    xml_items no_items = []
    xml_items (item v vs) = (codes "<item>" ++ (xml v ++ codes "</item>")) ++ xml_items vs

    pub xml_fields : Fields → Bytes
    xml_fields no_fields = []
    xml_fields (field k v fs) =
        (codes "<key>" ++ (xml_string k ++ codes "</key>"))
        ++ ((codes "<value>" ++ (xml v ++ codes "</value>")) ++ xml_fields fs)

  -- `xml_serialize`: the brigade as one text
  abbrev pub xml_serialize : Value → Bytes
  xml_serialize v = xml v
