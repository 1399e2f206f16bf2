-- ===== src/Json/Xml/Tests.antt =====
-- A run of `xml_serialize`, and an application of the theorem about it.
use dbslayer.Prelude.{ℕ, ◌≡◌, refl, [], ◌∷◌, ◌++◌, Bytes, codes, some, none, arith, All}
use dbslayer.Json.Value.{
  Value, negsuc, object, array, string, long, double, null, no_items, item, no_fields, field,
}
use dbslayer.Json.Print.{digits, print_long}
use dbslayer.Json.Xml.{xml, xml_string, xml_byte, xml_serialize}
use dbslayer.Json.Xml.Read.{read, read_xml, one_root, read_document}
use dbslayer.Json.Xml.Escapes.{IsPlainByte}
use dbslayer.Json.Xml.RoundTrip.{events}
use dbslayer.Json.Xml.Document.{read_document-xml_serialize}

abbrev half : ℕ → Bytes
half d = codes "0.5"

half-ArePlain : (d : ℕ) → All IsPlainByte (half d)
half-ArePlain d = ground arith

abbrev answer : Value
answer = object (
    field (codes "a<b")
      (array (
        item (string (codes "x&" ++ 0x0a ∷ 0x01 ∷ []))
          (item (long (negsuc 6)) (item (double 0) (item null no_items)))))
      no_fields)

answer_text :
    xml_serialize half answer
    ≡ codes
        "<object><key>a&lt;b</key><value><array><item>x&amp;&#x0A;</item><item>-7</item><item>0.5</item><item>null</item></array></value></object>"
unfolding xml xml_string xml_byte print_long digits
answer_text = refl

read_document-xml_serialize_example :
    read_document (xml_serialize half answer) ≡ some (events half answer)
read_document-xml_serialize_example = read_document-xml_serialize half half-ArePlain answer tt

-- a text without an element is no document
read_document-null : read_document (xml_serialize half null) ≡ none
unfolding read_document read_xml read one_root xml
read_document-null = refl
