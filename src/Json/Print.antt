-- ===== src/Json/Print.antt =====
-- common/serializejson.c: the text of a value. `snprintf` of a double is an argument.
use dbslayer.Prelude.{
  ℕ, zero, suc, ◌+◌, ◌/◌, ◌%◌, Bool, true, false, [], ◌∷◌, ◌++◌, Bytes, codes, ltb, ◌==◌,
  if◌then◌else◌, digit,
}
use dbslayer.Json.Value.{
  ℤ, pos, negsuc, Value, Items, Fields, object, array, string, long, longlong, double, boolean,
  null, no_items, item, no_fields, field,
}

-- the digits of `n` in front of `out`; twenty are enough for 64 bits
unfoldable pub digits : ℕ → ℕ → Bytes → Bytes
digits zero n out = out
digits (suc left) n out =
    let more = digits left (n / 10) ((b'0' + n % 10) ∷ out) in
    if ltb n 10 then (b'0' + n) ∷ out else more

-- `%ld` and `%lld`
unfoldable pub print_long : ℤ → Bytes
print_long (pos n) = digits 20 n []
print_long (negsuc n) = b'-' ∷ digits 20 (n + 1) []

unfoldable pub escape_byte : ℕ → Bytes
escape_byte c =
    if c == 0x0a
    then codes "\\n"
    else if c == 0x0d
    then codes "\\r"
    else if c == 0x09
    then codes "\\t"
    else if c == 0x08
    then codes "\\b"
    else if c == 0x0c
    then codes "\\f"
    else if c == 0x5c
    then codes "\\\\"
    else if c == b'/'
    then codes "\\/"
    else if c == 0x22
    then codes "\\\""
    else if ltb c 0x20
    then 0x5c ∷ b'u' ∷ b'0' ∷ b'0' ∷ digit (c / 16 % 16) ∷ digit (c % 16) ∷ []
    else c ∷ []

unfoldable pub escaped : Bytes → Bytes
escaped [] = []
escaped (c ∷ cs) = escape_byte c ++ escaped cs

unfoldable pub print_string : Bytes → Bytes
print_string s = 0x22 ∷ (escaped s ++ 0x22 ∷ [])

abbrev pub print_boolean : Bool → Bytes
print_boolean true = codes "true"
print_boolean false = codes "false"

module _ (print_double : ℕ → Bytes) where
  unfoldable mutual
    pub print : Value → Bytes
    print (object no_fields) = codes "{}"
    print (object (field k v fs)) =
        codes "{" ++ (print_string k ++ (codes " : " ++ (print v ++ more_fields fs)))
    print (array no_items) = codes "[]"
    print (array (item v vs)) = codes "[" ++ (print v ++ more_items vs)
    print (string s) = print_string s
    print (long n) = print_long n
    print (longlong n) = print_long n
    print (double d) = print_double d
    print (boolean b) = print_boolean b
    print null = codes "null"

    pub more_items : Items → Bytes
    more_items no_items = codes "]"
    more_items (item v vs) = codes " , " ++ (print v ++ more_items vs)

    pub more_fields : Fields → Bytes
    more_fields no_fields = codes "}"
    more_fields (field k v fs) =
        codes " , " ++ (print_string k ++ (codes " : " ++ (print v ++ more_fields fs)))
