-- ===== src/Json/Parse.antt =====
-- common/simplejson.c: arrays, objects and whole texts. `depth` counts up to JSON_MAX_DEPTH in the code
-- and down to 0 here.
use dbslayer.Prelude.{
  ℕ, zero, suc, ◌||◌, [], ◌∷◌, Bytes, length, ◌==◌, if◌then◌else◌, Option, none, some,
}
use dbslayer.Json.Value.{
  Value, Items, Fields, object, array, string, no_items, item, no_fields, skip_put,
}
use dbslayer.Json.Scan.{
  Scanned, scan_then, is_digit, skip_space, decode_null, decode_boolean, decode_number,
  decode_string,
}

-- `decode_json_value`, at the depth of the elements
abbrev pub Decoder : Type 0
Decoder = Bytes → Scanned Value

unfoldable pub expect_byte : ℕ → Bytes → Option Bytes
expect_byte c [] = none
expect_byte c (x ∷ xs) = if x == c then some xs else none

-- One round of the loop over the elements, at white space that is passed over. A closing bracket is no
-- white space: the test of the `while` and the cases of the `switch` agree on it.
unfoldable pub array_round : Decoder → (Bytes → Scanned Items) → Bytes → Scanned Items
array_round element loop [] = none
array_round element loop (c ∷ cs) =
    if c == b']'
    then some (no_items, cs)
    else if c == b','
    then scan_then (element cs) (λ v rest. scan_then (loop rest) (λ vs end. some (item v vs, end)))
    else none

-- The loop with fuel, and what it gives when the fuel is used up, which is no answer of the code: the theorem on
-- the fuel holds for any such value.
unfoldable pub array_loop_or : Scanned Items → ℕ → Decoder → Bytes → Scanned Items
array_loop_or exhausted zero element text = exhausted
array_loop_or exhausted (suc fuel) element text =
    array_round element (λ rest. array_loop_or exhausted fuel element rest) (skip_space text)

abbrev pub array_loop : ℕ → Decoder → Bytes → Scanned Items
array_loop = array_loop_or none

unfoldable pub array_from : Decoder → Bytes → Scanned Value
array_from element [] = none
array_from element (c ∷ cs) =
    if c == b']'
    then some (array no_items, cs)
    else scan_then (element (c ∷ cs)) (λ v rest.
      scan_then (array_loop (suc (length rest)) element rest)
        (λ vs end. some (array (item v vs), end)))

-- from the byte behind the opening bracket on
abbrev pub decode_array : Decoder → Bytes → Scanned Value
decode_array element text = array_from element (skip_space text)

abbrev pub with_name : Bytes → Scanned Value → Scanned (Bytes × Value)
with_name name none = none
with_name name (some (v, rest)) = some ((name, v), rest)

abbrev pub member_value : Decoder → Bytes → Option Bytes → Scanned (Bytes × Value)
member_value element name none = none
member_value element name (some text) = with_name name (element (skip_space text))

abbrev pub member_name : Decoder → Option Bytes → Scanned (Bytes × Value)
member_name element none = none
member_name element (some text) =
    scan_then (decode_string text)
      (λ name rest. member_value element name (expect_byte b':' (skip_space rest)))

-- a name, a colon and a value
unfoldable pub decode_member : Decoder → Bytes → Scanned (Bytes × Value)
decode_member element text = member_name element (expect_byte 0x22 (skip_space text))

unfoldable pub object_round :
    Decoder → (Fields → Bytes → Scanned Fields) → Fields → Bytes → Scanned Fields
object_round element loop members [] = none
object_round element loop members (c ∷ cs) =
    if c == b'}'
    then some (members, cs)
    else if c == b','
    then scan_then (decode_member element cs) (λ m rest. loop (skip_put m.0 m.1 members) rest)
    else none

unfoldable pub object_loop_or : Scanned Fields → ℕ → Decoder → Fields → Bytes → Scanned Fields
object_loop_or exhausted zero element members text = exhausted
object_loop_or exhausted (suc fuel) element members text =
    object_round element (λ fs rest. object_loop_or exhausted fuel element fs rest) members
      (skip_space text)

abbrev pub object_loop : ℕ → Decoder → Fields → Bytes → Scanned Fields
object_loop = object_loop_or none

abbrev pub object_of : Scanned Fields → Scanned Value
object_of none = none
object_of (some (members, rest)) = some (object members, rest)

unfoldable pub object_from : Decoder → Bytes → Scanned Value
object_from element [] = none
object_from element (c ∷ cs) =
    if c == b'}'
    then some (object no_fields, cs)
    else scan_then (decode_member element (c ∷ cs)) (λ m rest.
      object_of (object_loop (suc (length rest)) element (skip_put m.0 m.1 no_fields) rest))

-- from the byte behind the opening brace on
abbrev pub decode_object : Decoder → Bytes → Scanned Value
decode_object element text = object_from element (skip_space text)

abbrev pub string_value : Scanned Bytes → Scanned Value
string_value none = none
string_value (some (s, rest)) = some (string s, rest)

-- `none` when the depth would pass the limit
abbrev pub nested : Option Decoder → (Decoder → Scanned Value) → Scanned Value
nested none decode = none
nested (some element) decode = decode element

abbrev pub at_end : Value → Bytes → Option Value
at_end v [] = some v
at_end v (c ∷ cs) = none

abbrev pub max_depth : ℕ
max_depth = 64

module _ (strtod : Bytes → ℕ × ℕ) where
  -- the `switch`, at white space that is passed over
  unfoldable pub value_at : Option Decoder → Bytes → Scanned Value
  value_at deeper [] = none
  value_at deeper (c ∷ cs) =
      if c == 0x22
      then string_value (decode_string cs)
      else if c == b'['
      then nested deeper (λ element. decode_array element cs)
      else if c == b'{'
      then nested deeper (λ element. decode_object element cs)
      else if c == b'n'
      then decode_null (c ∷ cs)
      else if c == b't' || c == b'f'
      then decode_boolean (c ∷ cs)
      else if c == b'-' || is_digit c
      then decode_number strtod (c ∷ cs)
      else none

  unfoldable pub decode_value : ℕ → Decoder
  decode_value zero text = value_at none (skip_space text)
  decode_value (suc depth) text = value_at (some (λ t. decode_value depth t)) (skip_space text)

  unfoldable pub decode_json : Bytes → Option Value
  decode_json text = scan_then (decode_value max_depth text) (λ v rest. at_end v (skip_space rest))
