-- ===== src/Json/Strings.antt =====
-- The two loops of `decode_json_string`: the second one writes no more bytes than the first one counted.
use dbslayer.Prelude.{
  ◌⊎◌, ℕ, zero, suc, ◌+◌, ◌*◌, ◌^◌, ◌≤◌, ◌<◌, ◌≡◌, ◌≢◌, refl, sym, ap, subst, Bool, true, false, [],
  ◌∷◌, Bytes, length, length-append, take, drop, ltb, ◌==◌, Bool-cases, inl, inr, if◌then◌else◌,
  Option, none, some, arith, hex_value,
}
use dbslayer.Text.Utf8.{escaped2utf8, hex2int, hex2int_from, if_digit}
use dbslayer.Json.Scan.{
  Scanned, count_one, string_size, is_escape, put_bytes, put_char, until_nul, put_encoded,
  encode_code, put_unicode, put_escape, string_bytes, sized, decode_string, escaped_char,
}

-- `o` fits a text of `n` bytes up to the quote, with `k` bytes of it to be passed over first
abbrev Fits : ℕ → Bytes → Option ℕ → Scanned Bytes → Type 0
Fits k t none o = Unit
Fits k t (some n) none = Unit
Fits k t (some n) (some (out, rest)) = (length out + k ≤ n) × (rest ≡ drop (suc n) t)

-- neither a quote nor a backslash among the first `k` bytes
abbrev Plain : ℕ → Bytes → Type 0
Plain zero t = Unit
Plain (suc k) [] = ⊥
Plain (suc k) (c ∷ cs) = (c ≢ 0x22) × (c ≢ 0x5c) × Plain k cs

skip_lem :
    (k c : ℕ) (cs : Bytes) (s : Option ℕ) (o : Scanned Bytes)
    → Fits k cs s o
    → Fits (suc k) (c ∷ cs) (count_one s) o
skip_lem k c cs none o h = tt
skip_lem k c cs (some n) none h = tt
skip_lem k c cs (some n) (some (out, rest)) h = (omega (arith, h.0), h.1)

-- bytes are written for the `k` bytes of the text behind `c`, and for `c`
write_lem :
    (k c : ℕ) (cs bytes : Bytes) (s : Option ℕ) (o : Scanned Bytes)
    → length bytes ≤ suc k
    → Fits k cs s o
    → Fits 0 (c ∷ cs) (count_one s) (put_bytes bytes o)
write_lem k c cs bytes none o l h = tt
write_lem k c cs bytes (some n) none l h = tt
write_lem k c cs bytes (some n) (some (out, rest)) l h =
    (omega (arith, h.0, l, length-append bytes out), h.1)

none_lem : (k : ℕ) (t : Bytes) (s : Option ℕ) → Fits k t s none
none_lem k t none = tt
none_lem k t (some n) = tt

hex_value_not : (c d : ℕ) → hex_value c ≡ some d → (c ≢ 0x22) × (c ≢ 0x5c)
unfolding hex_value
hex_value_not c d h = (λ e. cc (ap hex_value e, h), λ e. cc (ap hex_value e, h))

hex2int_from-Plain :
    (r v k : ℕ) (t : Bytes) → k ≤ length t → hex2int_from r (take k t) ≡ some v → Plain k t
unfolding hex2int_from
hex2int_from-Plain r v zero t l h = tt
hex2int_from-Plain r v (suc k) [] l h = absurd (omega (arith, l))
hex2int_from-Plain r v (suc k) (c ∷ cs) l h =
    digit_lem (hex_value c) refl (λ n g. hex2int_from-Plain n v k cs (omega (arith, l)) g) h
  where
    digit_lem :
        (o : Option ℕ)
        → hex_value c ≡ o
        → ((n : ℕ) → hex2int_from n (take k cs) ≡ some v → Plain k cs)
        → if_digit o (λ d. hex2int_from (r + 16 ^ length (take k cs) * d) (take k cs)) ≡ some v
        → (c ≢ 0x22) × (c ≢ 0x5c) × Plain k cs
    digit_lem none e next g = cc
    digit_lem (some d) e next g = let n = hex_value_not c d e in (n.0, n.1, next _ g)

until_nul-le : (s : Bytes) → length (until_nul s) ≤ length s
unfolding until_nul
until_nul-le [] = omega arith
until_nul-le (c ∷ cs) = ground (arith, until_nul-le cs)

abbrev IsShort : Option Bytes → Type 0
IsShort none = Unit
IsShort (some bytes) = length bytes ≤ 6

IsShort-if : (b : Bool) (x y : Option Bytes) → IsShort x → IsShort y → IsShort (if b then x else y)
IsShort-if true x y h k = h
IsShort-if false x y h k = k

escaped2utf8-IsShort : (code : ℕ) → IsShort (escaped2utf8 code)
unfolding escaped2utf8
escaped2utf8-IsShort code = IsShort-if (ltb 0x7FFFFFFF code) _ _ tt (
    IsShort-if (ltb code 0x80) _ _ (omega arith) (
      IsShort-if (ltb code 0x800) _ _ (omega arith) (
        IsShort-if (ltb code 0x10000) _ _ (omega arith) (
          IsShort-if (ltb code 0x200000) _ _ (omega arith)
            (IsShort-if (ltb code 0x4000000) _ _ (omega arith) (omega arith))))))

-- The escape of a code: the bytes that are written, and the rest as the loop reads it.
unicode_lem :
    (t : Bytes) (more : Scanned Bytes)
    → (put_unicode t more ≡ none)
      ⊎ (Plain 4 t
          × ((bytes : Bytes) × (length bytes ≤ 6) × (put_unicode t more ≡ put_bytes bytes more)))
unfolding put_unicode
unicode_lem t more = elim (Bool-cases (ltb (length t) 4)) [
  | inl e ↦ inl (rw e)
  | inr e ↦ rw e (code_lem (hex2int (take 4 t)) refl (ground (arith, e)))
]
  where
    encoded_lem :
        (o : Option Bytes)
        → IsShort o
        → (put_encoded o more ≡ none)
          ⊎ ((bytes : Bytes) × (length bytes ≤ 6) × (put_encoded o more ≡ put_bytes bytes more))
    encoded_lem none h = inl refl
    encoded_lem (some s) h = inr (until_nul s, omega (arith, until_nul-le s, h), refl)

    plain_lem : {A B : Type 0} → Plain 4 t → A ⊎ B → A ⊎ (Plain 4 t × B)
    plain_lem p (inl a) = inl a
    plain_lem p (inr b) = inr (p, b)

    code_lem :
        (o : Option ℕ)
        → hex2int (take 4 t) ≡ o
        → 4 ≤ length t
        → (put_encoded (encode_code o) more ≡ none)
          ⊎ (Plain 4 t
              × ((bytes : Bytes) × (length bytes ≤ 6)
                  × (put_encoded (encode_code o) more ≡ put_bytes bytes more)))
    code_lem none e l = inl refl
    code_lem (some v) e l =
        plain_lem (hex2int_from-Plain 0 v 4 t l e)
          (encoded_lem (escaped2utf8 v) (escaped2utf8-IsShort v))

-- a backslash and the byte `d` behind it, in front of `ds`
escape_lem :
    (c d : ℕ) (ds : Bytes)
    → (Plain 4 ds → Fits 4 ds (string_size false ds) (string_bytes 4 ds))
    → Fits 0 ds (string_size false ds) (string_bytes 0 ds)
    → Fits 0
        (c ∷ d ∷ ds)
        (count_one (string_size true (d ∷ ds)))
        (put_escape (d ∷ ds) (λ k. string_bytes k (d ∷ ds)))
unfolding string_size put_escape string_bytes
escape_lem c d ds unicode simple = elim (Bool-cases (is_escape d)) [
  | inl e ↦ rw e (kind_lem (d == b'u'))
  | inr e ↦ rw e tt
]
  where
    code_lem :
        (o : Scanned Bytes)
        → (o ≡ none)
          ⊎ (Plain 4 ds
              × ((bytes : Bytes) × (length bytes ≤ 6) × (o ≡ put_bytes bytes (string_bytes 4 ds))))
        → Fits 0 (c ∷ d ∷ ds) (count_one (count_one (string_size false ds))) o
    code_lem o (inl e) =
        subst (Fits 0 (c ∷ d ∷ ds) (count_one (count_one (string_size false ds)))) (sym e)
          (none_lem 0 (c ∷ d ∷ ds) (count_one (count_one (string_size false ds))))
    code_lem o (inr (p, (bytes, l, e))) =
        subst (Fits 0 (c ∷ d ∷ ds) (count_one (count_one (string_size false ds)))) (sym e) (
          write_lem 5 c (d ∷ ds) bytes (count_one (string_size false ds)) (string_bytes 4 ds) l
            (skip_lem 4 d ds (string_size false ds) (string_bytes 4 ds) (unicode p)))

    char_lem :
        (o : Option ℕ)
        → Fits 0
            (c ∷ d ∷ ds)
            (count_one (count_one (string_size false ds)))
            (put_char o (string_bytes 0 ds))
    char_lem none = none_lem 0 (c ∷ d ∷ ds) (count_one (count_one (string_size false ds)))
    char_lem (some b) =
        write_lem 1 c (d ∷ ds) (b ∷ []) (count_one (string_size false ds)) (string_bytes 0 ds)
          (omega arith) (skip_lem 0 d ds (string_size false ds) (string_bytes 0 ds) simple)

    kind_lem :
        (u : Bool)
        → Fits 0 (c ∷ d ∷ ds) (count_one (count_one (string_size false ds))) (
            if u
            then put_unicode ds (string_bytes 4 ds)
            else put_char (escaped_char d) (string_bytes 0 ds))
    kind_lem true = code_lem _ (unicode_lem ds (string_bytes 4 ds))
    kind_lem false = char_lem (escaped_char d)

ne_test : (c k : ℕ) → c ≢ k → (c == k) ≡ false
ne_test c k n = ground (arith, n)

no_byte :
    (c : ℕ)
    → Fits 0 (c ∷ []) (count_one (string_size true [])) (put_escape [] (λ k. string_bytes k []))
unfolding put_escape
no_byte c = none_lem 0 (c ∷ []) (count_one (string_size true []))

step_lem :
    (c : ℕ) (cs : Bytes)
    → Fits 0 (c ∷ cs) (count_one (string_size true cs)) (put_escape cs (λ k. string_bytes k cs))
    → Fits 0 cs (string_size false cs) (string_bytes 0 cs)
    → Fits 0 (c ∷ cs) (string_size false (c ∷ cs)) (string_bytes 0 (c ∷ cs))
unfolding string_size string_bytes
step_lem c cs escape plain = elim (Bool-cases (c == 0x22)) [
  | inl e ↦ rw e (omega arith, refl)
  | inr e ↦ rw e (elim (Bool-cases (c == 0x5c)) [
    | inl f ↦ rw f escape
    | inr f ↦ rw f (write_lem 0 c cs (c ∷ []) _ _ (omega arith) plain)
  ])
]

loops_lem : (k : ℕ) (t : Bytes) → Plain k t → Fits k t (string_size false t) (string_bytes k t)
unfolding string_size string_bytes
loops_lem zero [] p = tt
loops_lem (suc k) [] p = tt
loops_lem (suc k) (c ∷ cs) (q, b, p) =
    rw (ne_test c 0x22 q) (rw (ne_test c 0x5c b) (skip_lem k c cs _ _ (loops_lem k cs p)))
loops_lem zero (c ∷ []) p = step_lem c [] (no_byte c) tt
loops_lem zero (c ∷ d ∷ ds) p =
    step_lem c (d ∷ ds) (escape_lem c d ds (λ q. loops_lem 4 ds q) (loops_lem zero ds tt))
      (loops_lem zero (d ∷ ds) tt)

abbrev out_length : Scanned Bytes → ℕ
out_length none = 0
out_length (some (out, rest)) = length out

one_lem : (n : ℕ) → n + 1 ≡ suc n
one_lem n = omega arith

sized_lem :
    (t out rest : Bytes) (s : Option ℕ) (o : Scanned Bytes)
    → string_size false t ≡ s
    → Fits 0 t s o
    → sized s o ≡ some (out, rest)
    → (n : ℕ) × (string_size false t ≡ some n) × (length out < n + 1) × (rest ≡ drop (n + 1) t)
sized_lem t out rest none o e h p = cc
sized_lem t out rest (some n) none e h p = cc
sized_lem t out rest (some n) (some (x, y)) e h p =
    (n, e, omega (arith, ap out_length p, h.0), cc (h.1, p, ap (λ k. drop k t) (one_lem n)))

-- A decoded string leaves room for its NUL in the buffer, whose size the first loop counts: one byte
-- more than stand before the closing quote. The text goes on behind that quote.
pub decode_string-fits :
    (t out rest : Bytes)
    → decode_string t ≡ some (out, rest)
    → (n : ℕ) × (string_size false t ≡ some n) × (length out < n + 1) × (rest ≡ drop (n + 1) t)
unfolding decode_string
decode_string-fits t out rest h =
    sized_lem t out rest (string_size false t) (string_bytes 0 t) refl (loops_lem 0 t tt) h
