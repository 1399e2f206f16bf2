-- ===== src/Json/Leaves.antt =====
-- The scanners never lengthen the text.
pub mod Loops
use dbslayer.Text.Utf8.{hex2int}
use dbslayer.Prelude.{
  ltb, take, ℕ, zero, suc, ◌+◌, ◌-◌, ◌*◌, ◌≤◌, ◌<◌, ◌≡◌, refl, ap, ◌∙◌, Bool, true, false, [], ◌∷◌,
  Bytes, length, drop, length-drop, codes, starts_with, ◌==◌, ◌||◌, Bool-cases, inl, inr,
  if◌then◌else◌, Option, none, some, arith,
}
use dbslayer.Json.Value.{
  ℤ, Value, Items, Fields, object, array, no_items, item, no_fields, field, skip_put, long, double,
}
use dbslayer.Json.Scan.{
  Scanned, scan_then, is_digit, is_space, skip_space, decode_null, decode_boolean, decode_number,
  decode_string, is_float, read_digits, strtol, strtol_digits, long_of, long_value, double_value,
  string_size, string_bytes, sized, put_bytes, put_char, put_encoded, put_unicode, put_escape,
  encode_code, escaped_char,
}
use dbslayer.Json.Parse.{
  Decoder, expect_byte, array_round, array_loop, array_from, with_name, member_value, member_name,
  decode_member, object_round, object_loop, object_of, object_from, string_value, nested, value_at,
  decode_value, decode_json, max_depth,
}

-- at most `n` bytes are left
abbrev pub Leaves {ℓ} : {A : Type ℓ} → ℕ → Scanned A → Type 0
Leaves n none = Unit
Leaves n (some (a, rest)) = length rest ≤ n

pub Leaves-scan_then {ℓ κ} :
    {A : Type ℓ} {B : Type κ} (n m : ℕ) (o : Scanned A) (next : A → Bytes → Scanned B)
    → Leaves n o
    → ((a : A) (rest : Bytes) → length rest ≤ n → Leaves m (next a rest))
    → Leaves m (scan_then o next)
Leaves-scan_then n m none next h k = tt
Leaves-scan_then n m (some (a, rest)) next h k = k a rest h

pub Leaves-if {ℓ} :
    {A : Type ℓ} (n : ℕ) (b : Bool) (x y : Scanned A)
    → Leaves n x
    → Leaves n y
    → Leaves n (if b then x else y)
Leaves-if n true x y h k = h
Leaves-if n false x y h k = k

pub length-skip_space : (t : Bytes) → length (skip_space t) ≤ length t
unfolding skip_space
length-skip_space [] = omega arith
length-skip_space (c ∷ cs) = ground (arith, length-skip_space cs)

Leaves-put_bytes :
    (n : ℕ) (bytes : Bytes) (o : Scanned Bytes) → Leaves n o → Leaves n (put_bytes bytes o)
Leaves-put_bytes n bytes none h = tt
Leaves-put_bytes n bytes (some (out, rest)) h = h

Leaves-put_encoded :
    (n : ℕ) (e : Option Bytes) (o : Scanned Bytes) → Leaves n o → Leaves n (put_encoded e o)
Leaves-put_encoded n none o h = tt
Leaves-put_encoded n (some s) o h = Leaves-put_bytes n _ o h

Leaves-put_char : (n : ℕ) (e : Option ℕ) (o : Scanned Bytes) → Leaves n o → Leaves n (put_char e o)
Leaves-put_char n none o h = tt
Leaves-put_char n (some c) o h = Leaves-put_bytes n (c ∷ []) o h

Leaves-put_unicode :
    (n : ℕ) (t : Bytes) (more : Scanned Bytes) → Leaves n more → Leaves n (put_unicode t more)
unfolding put_unicode
Leaves-put_unicode n t more h =
    Leaves-if n (ltb (length t) 4) none (put_encoded (encode_code (hex2int (take 4 t))) more) tt
      (Leaves-put_encoded n (encode_code (hex2int (take 4 t))) more h)

Leaves-put_escape :
    (n : ℕ) (t : Bytes) (loop : ℕ → Scanned Bytes)
    → ((k : ℕ) → Leaves n (loop k))
    → Leaves n (put_escape t loop)
unfolding put_escape
Leaves-put_escape n [] loop h = tt
Leaves-put_escape n (c ∷ cs) loop h =
    Leaves-if n (c == b'u') _ _ (Leaves-put_unicode n cs (loop 5) (h 5))
      (Leaves-put_char n (escaped_char c) (loop 1) (h 1))

pub weaken {ℓ} : {A : Type ℓ} (n m : ℕ) (o : Scanned A) → n ≤ m → Leaves n o → Leaves m o
weaken n m none l h = tt
weaken n m (some (a, rest)) l h = omega (arith, l, h)

string_bytes-Leaves : (k : ℕ) (t : Bytes) → Leaves (length t) (string_bytes k t)
unfolding string_bytes
string_bytes-Leaves k [] = tt
string_bytes-Leaves (suc k) (c ∷ cs) =
    weaken (length cs) _ (string_bytes k cs) (omega arith) (string_bytes-Leaves k cs)
string_bytes-Leaves zero (c ∷ cs) =
    let more = λ (k : ℕ).
      weaken (length cs) (suc (length cs)) (string_bytes k cs) (omega arith)
        (string_bytes-Leaves k cs) in
    Leaves-if _ (c == 0x22) _ _ (omega arith) (
      Leaves-if _ (c == 0x5c) _ _ (Leaves-put_escape _ cs (λ k. string_bytes k cs) more)
        (Leaves-put_bytes _ (c ∷ []) (string_bytes 0 cs) (more 0)))

pub decode_string-Leaves : (t : Bytes) → Leaves (length t) (decode_string t)
unfolding decode_string
decode_string-Leaves t = size_lem (string_size false t)
  where
    size_lem : (s : Option ℕ) → Leaves (length t) (sized s (string_bytes 0 t))
    size_lem none = tt
    size_lem (some n) = string_bytes-Leaves 0 t

read_digits-le : (n : ℕ) (t : Bytes) → length (read_digits n t).1 ≤ length t
unfolding read_digits
read_digits-le n [] = omega arith
read_digits-le n (c ∷ cs) = elim (Bool-cases (is_digit c)) [
  | inl e ↦ rw e (omega (arith, read_digits-le (n * 10 + (c - b'0')) cs))
  | inr e ↦ rw e (omega arith)
]

pub drop_le : (k : ℕ) (t : Bytes) → length (drop k t) ≤ length t
drop_le k t = omega (arith, length-drop k t)

strtol_digits-Leaves : (b : Bool) (t : Bytes) → Leaves (length t) (strtol_digits b t)
unfolding strtol_digits
strtol_digits-Leaves b [] = tt
strtol_digits-Leaves b (c ∷ cs) = Leaves-if _ (is_digit c) _ none (read_digits-le 0 (c ∷ cs)) tt

pub strtol-Leaves : (t : Bytes) → Leaves (length t) (strtol t)
unfolding strtol
strtol-Leaves [] = tt
strtol-Leaves (c ∷ cs) =
    Leaves-if _ (c == b'-') _ _
      (weaken (length cs) _ (strtol_digits true cs) (omega arith) (strtol_digits-Leaves true cs))
      (strtol_digits-Leaves false (c ∷ cs))

abbrev pub IsShorter : ℕ → Option Bytes → Type 0
IsShorter n none = Unit
IsShorter n (some t) = length t ≤ n

pub expect_byte-IsShorter : (c : ℕ) (t : Bytes) → IsShorter (length t) (expect_byte c t)
unfolding expect_byte
expect_byte-IsShorter c [] = tt
expect_byte-IsShorter c (x ∷ xs) = elim (Bool-cases (x == c)) [
  | inl e ↦ rw e (omega arith)
  | inr e ↦ rw e tt
]
