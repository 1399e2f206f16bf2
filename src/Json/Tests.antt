-- ===== src/Json/Tests.antt =====
-- Runs of the JSON decoder and printer, and an application of each theorem about them.
use dbslayer.Prelude.{
  [], ℕ, suc, ◌+◌, ◌<◌, ◌≡◌, refl, true, false, Bytes, codes, starts_with, length, drop, bytes_eq,
  if◌then◌else◌, some, arith, hex_value,
}
use dbslayer.Text.Utf8.{hex2int_from, escaped2utf8}
use dbslayer.Json.Value.{
  pos, negsuc, Value, object, array, string, long, double, boolean, null, no_items, item, no_fields,
  field, skip_put, skip_get, bytes_lt,
}
use dbslayer.Json.Print.{print, print_long, digits, print_string, escaped, escape_byte}
use dbslayer.Json.Scan.{
  skip_space, decode_null, decode_boolean, is_float, read_digits, clamp_long, strtol_digits, strtol,
  decode_number, is_escape, string_size, until_nul, escaped_char, put_unicode, put_escape,
  string_bytes, decode_string,
}
use dbslayer.Json.Parse.{
  expect_byte, array_round, array_loop, array_loop_or, object_loop_or, array_from, decode_member,
  object_round, object_loop, object_from, value_at, decode_value, decode_json, max_depth,
}
use dbslayer.Json.RoundTrip.Shape.{depth, IsPlain, IsSorted, AllAbove}
use dbslayer.Json.RoundTrip.Values.{decode_json-print}
use dbslayer.Json.Depth.{IsDecoded, decode_json-IsDecoded}
use dbslayer.Json.Order.{skip_get-skip_put}
use dbslayer.Json.Strings.{decode_string-fits}
use dbslayer.Json.Fuel.{loops-fuel}

-- a `strtod` that knows one number
abbrev one_half : Bytes → ℕ × ℕ
unfolding starts_with
one_half t = if starts_with (codes "0.5") t then (0x3fe0000000000000, 3) else (0, 0)

abbrev print_half : ℕ → Bytes
print_half d = codes "0.5"

abbrev query : Bytes
query = codes "{\"b\" : [1, -20 ,true] ,\n \"a\":\"x\\u0041\\n\", \"c\" : 0.5, \"d\":[ ]}"

abbrev query_value : Value
query_value = object (
    field (codes "a") (string (codes "xA\n")) (
      field (codes "b")
        (array (item (long (pos 1)) (item (long (negsuc 19)) (item (boolean true) no_items))))
        (field (codes "c") (double 0x3fe0000000000000)
          (field (codes "d") (array no_items) no_fields))))

query-decoded : decode_json one_half query ≡ some query_value
unfolding decode_json decode_value value_at array_from array_loop_or array_round object_from
    object_loop_or object_round decode_member expect_byte decode_string string_bytes string_size
    put_escape put_unicode escaped_char until_nul is_escape decode_number strtol strtol_digits
    clamp_long read_digits is_float decode_boolean decode_null skip_space skip_put bytes_lt
    starts_with hex2int_from escaped2utf8 hex_value one_half
query-decoded = refl

abbrev plain_value : Value
plain_value = object (
    field (codes "SQL") (string (codes "select \"x\"\n/2"))
      (field (codes "n") (array (item (long (negsuc 19)) (item null no_items))) no_fields))

plain_text :
    print print_half plain_value
    ≡ codes "{\"SQL\" : \"select \\\"x\\\"\\n\\/2\" , \"n\" : [-20 , null]}"
unfolding print print_long digits print_string escaped escape_byte
plain_text = refl

decode_json-print_example : decode_json one_half (print print_half plain_value) ≡ some plain_value
unfolding IsPlain depth IsSorted AllAbove bytes_lt
decode_json-print_example =
    decode_json-print one_half print_half plain_value (ground arith) (omega arith)

decode_json-IsDecoded_example : IsDecoded max_depth query_value
decode_json-IsDecoded_example = decode_json-IsDecoded one_half query query_value query-decoded

decode_string-fits_example :
    (n : ℕ) × (string_size false (codes "x\\u0041\" : 1") ≡ some n)
    × (length (codes "xA") < n + 1)
    × (codes " : 1" ≡ drop (n + 1) (codes "x\\u0041\" : 1"))
unfolding decode_string string_bytes string_size put_escape put_unicode escaped_char until_nul
    is_escape hex2int_from escaped2utf8 hex_value
decode_string-fits_example =
    decode_string-fits (codes "x\\u0041\" : 1") (codes "xA") (codes " : 1") refl

-- the name "b" twice: the value that was skip_put last is found
skip_get-skip_put_example :
    skip_get (codes "b") (skip_put (codes "b") null (field (codes "b") (boolean true) no_fields))
    ≡ some null
unfolding bytes_eq
skip_get-skip_put_example =
    skip_get-skip_put (codes "b") (codes "b") null (field (codes "b") (boolean true) no_fields)

-- what stands for used-up fuel does not come out
loops-fuel_example :
    (array_loop_or (some (no_items, [])) (suc 4 + 3) (decode_value one_half 2) (codes " ,1]")
      ≡ array_loop (suc 4) (decode_value one_half 2) (codes " ,1]"))
    × (object_loop_or
          (some (no_fields, []))
          (suc 4 + 3)
          (decode_value one_half 2)
          no_fields
          (codes " ,1]")
        ≡ object_loop (suc 4) (decode_value one_half 2) no_fields (codes " ,1]"))
loops-fuel_example =
    loops-fuel one_half (some (no_items, [])) (some (no_fields, [])) 2 3 no_fields (codes " ,1]")
