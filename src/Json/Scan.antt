-- ===== src/Json/Scan.antt =====
-- common/simplejson.c: the literals, numbers and strings of a JSON text. A text is the bytes from
-- `offset` to `end`, where its NUL stands; `none` is NULL. `strtod` is an argument: it gives the double
-- and the number of bytes that it reads.
use dbslayer.Prelude.{
  ℕ, zero, suc, ◌+◌, ◌-◌, ◌*◌, ◌^◌, ◌&&◌, ◌||◌, Bool, true, false, [], ◌∷◌, ◌++◌, Bytes, codes,
  starts_with, take, drop, length, ltb, leb, ◌==◌, if◌then◌else◌, Option, none, some,
}
use dbslayer.Text.Utf8.{escaped2utf8, hex2int}
use dbslayer.Json.Value.{ℤ, pos, negsuc, Value, long, double, boolean, null}

-- what a decoder gives: NULL, or a result and the text behind it
abbrev pub Scanned {ℓ} : Type ℓ → Type ℓ
Scanned A = Option (A × Bytes)

abbrev pub scan_then {ℓ κ} :
    {A : Type ℓ} {B : Type κ} → Scanned A → (A → Bytes → Option B) → Option B
scan_then none next = none
scan_then (some (a, rest)) next = next a rest

abbrev pub is_space : ℕ → Bool
is_space c = c == b' ' || (leb 9 c && leb c 13)

abbrev pub is_digit : ℕ → Bool
is_digit c = leb b'0' c && leb c b'9'

unfoldable pub skip_space : Bytes → Bytes
skip_space [] = []
skip_space (c ∷ cs) = if is_space c then skip_space cs else c ∷ cs

unfoldable pub decode_null : Bytes → Scanned Value
decode_null text = if starts_with (codes "null") text then some (null, drop 4 text) else none

unfoldable pub decode_boolean : Bytes → Scanned Value
decode_boolean text =
    if starts_with (codes "true") text
    then some (boolean true, drop 4 text)
    else if starts_with (codes "false") text
    then some (boolean false, drop 5 text)
    else none

-- the loop that sets `isfloat`, where `first` holds at `injson->offset`
unfoldable pub is_float : Bool → Bytes → Bool
is_float first [] = false
is_float first (c ∷ cs) =
    let more = is_float false cs in
    if is_digit c || (c == b'-' && first) then more else c == b'e' || c == b'E' || c == b'.'

unfoldable pub read_digits : ℕ → Bytes → ℕ × Bytes
read_digits n [] = (n, [])
read_digits n (c ∷ cs) =
    let more = read_digits (n * 10 + (c - b'0')) cs in if is_digit c then more else (n, c ∷ cs)

-- LONG_MIN and LONG_MAX stand for what is out of their range
unfoldable pub clamp_long : Bool → ℕ → ℤ
clamp_long false n = if ltb n (2 ^ 63) then pos n else pos (2 ^ 63 - 1)
clamp_long true zero = pos 0
clamp_long true (suc n) = if ltb n (2 ^ 63) then negsuc n else negsuc (2 ^ 63 - 1)

abbrev pub long_of : Bool → ℕ × Bytes → Scanned ℤ
long_of negative (n, rest) = some (clamp_long negative n, rest)

-- the digits behind the sign, at least one
unfoldable pub strtol_digits : Bool → Bytes → Scanned ℤ
strtol_digits negative [] = none
strtol_digits negative (c ∷ cs) =
    if is_digit c then long_of negative (read_digits 0 (c ∷ cs)) else none

-- `strtol(text, &rest, 10)` for a text that begins with a digit or a minus; `none` when nothing is read
unfoldable pub strtol : Bytes → Scanned ℤ
strtol [] = none
strtol (c ∷ cs) = if c == b'-' then strtol_digits true cs else strtol_digits false (c ∷ cs)

abbrev pub long_value : Scanned ℤ → Scanned Value
long_value none = none
long_value (some (n, rest)) = some (long n, rest)

abbrev pub double_value : Bytes → ℕ × ℕ → Scanned Value
double_value text (d, zero) = none
double_value text (d, suc n) = some (double d, drop (suc n) text)

unfoldable pub decode_number : (Bytes → ℕ × ℕ) → Bytes → Scanned Value
decode_number strtod text =
    if is_float true text then double_value text (strtod text) else long_value (strtol text)

unfoldable pub is_escape : ℕ → Bool
is_escape c =
    c == b'u'
    || c == 0x5c
    || c == b'/'
    || c == b'n'
    || c == b'r'
    || c == b't'
    || c == b'f'
    || c == b'b'
    || c == 0x22

abbrev pub count_one : Option ℕ → Option ℕ
count_one none = none
count_one (some n) = some (suc n)

-- The first loop: how many bytes stand before the closing quote. The flag says that a backslash was
-- read.
unfoldable pub string_size : Bool → Bytes → Option ℕ
string_size escape [] = none
string_size true (c ∷ cs) =
    let more = string_size false cs in if is_escape c then count_one more else none
string_size false (c ∷ cs) =
    let more = string_size (c == 0x5c) cs in if c == 0x22 then some 0 else count_one more

-- what `*optr++` writes in front of the rest of the string
abbrev pub put_bytes : Bytes → Scanned Bytes → Scanned Bytes
put_bytes bytes none = none
put_bytes bytes (some (out, rest)) = some (bytes ++ out, rest)

-- the bytes before the NUL
unfoldable pub until_nul : Bytes → Bytes
until_nul [] = []
until_nul (c ∷ cs) = let rest = until_nul cs in if c == 0 then [] else c ∷ rest

unfoldable pub escaped_char : ℕ → Option ℕ
escaped_char c =
    if c == 0x5c
    then some 0x5c
    else if c == b'/'
    then some b'/'
    else if c == b'n'
    then some 0x0a
    else if c == b'r'
    then some 0x0d
    else if c == b't'
    then some 0x09
    else if c == b'f'
    then some 0x0c
    else if c == b'b'
    then some 0x08
    else if c == 0x22
    then some 0x22
    else none

abbrev pub put_char : Option ℕ → Scanned Bytes → Scanned Bytes
put_char none more = none
put_char (some c) more = put_bytes (c ∷ []) more

abbrev pub put_encoded : Option Bytes → Scanned Bytes → Scanned Bytes
put_encoded none more = none
put_encoded (some bytes) more = put_bytes (until_nul bytes) more

abbrev pub encode_code : Option ℕ → Option Bytes
encode_code none = none
encode_code (some code) = escaped2utf8 code

-- `\uXXXX`, from the X on
unfoldable pub put_unicode : Bytes → Scanned Bytes → Scanned Bytes
put_unicode text more =
    if ltb (length text) 4 then none else put_encoded (encode_code (hex2int (take 4 text))) more

-- the byte behind a backslash; `loop k` goes on with `k` bytes passed over
unfoldable pub put_escape : Bytes → (ℕ → Scanned Bytes) → Scanned Bytes
put_escape [] loop = none
put_escape (c ∷ cs) loop =
    if c == b'u' then put_unicode cs (loop 5) else put_char (escaped_char c) (loop 1)

-- The second loop; the first argument counts the bytes that are still to be passed over.
unfoldable pub string_bytes : ℕ → Bytes → Scanned Bytes
string_bytes skip [] = none
string_bytes (suc skip) (c ∷ cs) = string_bytes skip cs
string_bytes zero (c ∷ cs) =
    let loop = λ (k : ℕ). string_bytes k cs in
    if c == 0x22
    then some ([], cs)
    else if c == 0x5c
    then put_escape cs loop
    else put_bytes (c ∷ []) (loop 0)

abbrev pub sized : Option ℕ → Scanned Bytes → Scanned Bytes
sized none bytes = none
sized (some size) bytes = bytes

-- from the byte behind the opening quote on
unfoldable pub decode_string : Bytes → Scanned Bytes
decode_string text = sized (string_size false text) (string_bytes 0 text)
