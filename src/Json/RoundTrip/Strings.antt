-- ===== src/Json/RoundTrip/Strings.antt =====
-- A printed string is decoded to the same bytes.
use dbslayer.Prelude.{
  ℕ, suc, ◌/◌, ◌%◌, ◌<◌, ◌≡◌, ◌≢◌, refl, ap, ap₂, ◌∙◌, Bool, true, false, [], ◌∷◌, ◌++◌,
  append_assoc, Bytes, ltb, ◌==◌, ==_iff, Bool-cases, if◌then◌else◌, some, arith, All, digit, inl,
  inr, not, ◌||◌, passes_under, passes_at,
}
use dbslayer.Text.Utf8.{escaped2utf8, hex2int}
use dbslayer.Text.Utf8.RoundTrip.{hex2int-escape_digits}
use dbslayer.Json.Print.{escape_byte, escaped}
use dbslayer.Json.Scan.{
  Scanned, count_one, string_size, is_escape, put_bytes, until_nul, put_encoded, encode_code,
  put_unicode, put_escape, string_bytes, sized, decode_string, escaped_char,
}

-- a byte of a C string
abbrev pub IsChar : ℕ → Type 0
IsChar c = (c ≢ 0) × (c < 256)

eq_cases {ℓ κ} :
    {A : Type ℓ} (P : A → Type κ) (c k : ℕ) (x y : A)
    → (c ≡ k → P x)
    → (c ≢ k → P y)
    → P (if c == k then x else y)
eq_cases P c k x y h n = elim (Bool-cases (c == k)) [
  | inl e ↦ rw e (h ((==_iff c k).0 e))
  | inr e ↦ rw e (n (λ p. cc ((==_iff c k).1 p)))
]

put_unicode_lem :
    (a b c d : ℕ) (rest : Bytes) (more : Scanned Bytes)
    → put_unicode (a ∷ b ∷ c ∷ d ∷ rest) more
      ≡ put_encoded (encode_code (hex2int (a ∷ b ∷ c ∷ d ∷ []))) more
unfolding put_unicode
put_unicode_lem a b c d rest more = ground arith

leading_zeros :
    (m n a b : ℕ)
    → 0 ≡ m
    → 0 ≡ n
    → hex2int (b'0' ∷ b'0' ∷ a ∷ b ∷ []) ≡ hex2int (digit m ∷ digit n ∷ a ∷ b ∷ [])
leading_zeros m n a b p q = ap₂ (λ x y. hex2int (digit x ∷ digit y ∷ a ∷ b ∷ [])) p q

control_lem :
    (c : ℕ) → c < 0x20 → hex2int (b'0' ∷ b'0' ∷ digit (c / 16 % 16) ∷ digit (c % 16) ∷ []) ≡ some c
control_lem c h =
    leading_zeros (c / 4096) (c / 256 % 16) _ _ (omega (arith, h)) (omega (arith, h))
    ∙ hex2int-escape_digits c (omega (arith, h))

encoded_lem :
    (c : ℕ) (more : Scanned Bytes)
    → c ≢ 0
    → c < 0x20
    → put_encoded (escaped2utf8 c) more ≡ put_bytes (c ∷ []) more
unfolding escaped2utf8 until_nul
encoded_lem c more p h = ground (arith, p, h)

-- the bytes `t` are read as the byte `c`, whatever follows
record ReadsAs (c : ℕ) (t : Bytes) : Type 0 where
  bytes_eq : (rest : Bytes) → string_bytes 0 (t ++ rest) ≡ put_bytes (c ∷ []) (string_bytes 0 rest)
  size_eq :
      (rest : Bytes) (n : ℕ)
      → string_size false rest ≡ some n
      → (m : ℕ) × (string_size false (t ++ rest) ≡ some m)

two_lem :
    (c k e : ℕ)
    → c ≡ k
    → (e == b'u') ≡ false
    → escaped_char e ≡ some k
    → is_escape e ≡ true
    → ReadsAs c (0x5c ∷ e ∷ [])
unfolding string_bytes put_escape string_size is_escape
two_lem c k e p u q h = record {
  bytes_eq = λ rest. rw u (rw q (rw p));
  size_eq = λ rest n r. (suc (suc n), rw h (rw r));
}

size_plain :
    (a : ℕ) (t : Bytes)
    → a ≢ 0x22
    → a ≢ 0x5c
    → string_size false (a ∷ t) ≡ count_one (string_size false t)
unfolding string_size
size_plain a t p q = ground (arith, p, q)

digit_table : passes_under (λ d. not (digit d == 0x22 || digit d == 0x5c)) 16 ≡ true
unfolding passes_under
digit_table = refl

size_digit :
    (d : ℕ) (t : Bytes) → d < 16 → string_size false (digit d ∷ t) ≡ count_one (string_size false t)
size_digit d t h =
    let plain = passes_at (λ d. not (digit d == 0x22 || digit d == 0x5c)) d 16 digit_table h in
    size_plain (digit d) t (ground (arith, plain)) (ground (arith, plain))

control-ReadsAs :
    (c : ℕ)
    → c ≢ 0
    → c < 0x20
    → ReadsAs c (0x5c ∷ b'u' ∷ b'0' ∷ b'0' ∷ digit (c / 16 % 16) ∷ digit (c % 16) ∷ [])
unfolding string_bytes put_escape string_size is_escape
control-ReadsAs c p h = record {
  bytes_eq = λ rest.
      put_unicode_lem b'0' b'0' (digit (c / 16 % 16)) (digit (c % 16)) rest (string_bytes 0 rest)
      ∙ ap (λ o. put_encoded (encode_code o) (string_bytes 0 rest)) (control_lem c h)
      ∙ encoded_lem c (string_bytes 0 rest) p h;
  size_eq = λ rest n r. (
    _,
    ap (λ o. count_one (count_one (count_one (count_one o))))
        (size_digit (c / 16 % 16) (digit (c % 16) ∷ rest) (omega arith)
          ∙ ap count_one (size_digit (c % 16) rest (omega arith) ∙ ap count_one r)),
  );
}

plain-ReadsAs : (c : ℕ) → c ≢ 0x22 → c ≢ 0x5c → ReadsAs c (c ∷ [])
unfolding string_bytes string_size
plain-ReadsAs c p q = record {
  bytes_eq = λ rest. ground (arith, p, q);
  size_eq = λ rest n r. (suc n, ground (arith, p, q, r));
}

escape_byte-ReadsAs : (c : ℕ) → c ≢ 0 → ReadsAs c (escape_byte c)
unfolding escape_byte escaped_char is_escape
escape_byte-ReadsAs c z =
    eq_cases (ReadsAs c) c 0x0a _ _ (λ e. two_lem c 0x0a b'n' e refl refl refl)
      λ _.
        eq_cases (ReadsAs c) c 0x0d _ _ (λ e. two_lem c 0x0d b'r' e refl refl refl)
          λ _.
            eq_cases (ReadsAs c) c 0x09 _ _ (λ e. two_lem c 0x09 b't' e refl refl refl)
              λ _.
                eq_cases (ReadsAs c) c 0x08 _ _ (λ e. two_lem c 0x08 b'b' e refl refl refl)
                  λ _.
                    eq_cases (ReadsAs c) c 0x0c _ _ (λ e. two_lem c 0x0c b'f' e refl refl refl)
                      λ _.
                        eq_cases (ReadsAs c) c 0x5c _ _ (λ e. two_lem c 0x5c 0x5c e refl refl refl)
                          λ b.
                            eq_cases (ReadsAs c) c b'/' _ _
                              (λ e. two_lem c b'/' b'/' e refl refl refl)
                              λ _.
                                eq_cases (ReadsAs c) c 0x22 _ _
                                  (λ e. two_lem c 0x22 0x22 e refl refl refl)
                                  λ q. control_cases (ltb c 0x20) c refl z b q
  where
    control_cases :
        (small : Bool) (c : ℕ)
        → ltb c 0x20 ≡ small
        → c ≢ 0
        → c ≢ 0x5c
        → c ≢ 0x22
        → ReadsAs c (
            if small
            then 0x5c ∷ b'u' ∷ b'0' ∷ b'0' ∷ digit (c / 16 % 16) ∷ digit (c % 16) ∷ []
            else c ∷ [])
    control_cases true c e z b q = control-ReadsAs c z (ground (arith, e))
    control_cases false c e z b q = plain-ReadsAs c q b

end_lem :
    (rest : Bytes)
    → (string_bytes 0 (0x22 ∷ rest) ≡ some ([], rest)) × (string_size false (0x22 ∷ rest) ≡ some 0)
unfolding string_bytes string_size
end_lem rest = (refl, refl)

bytes_lem :
    (s rest : Bytes) → All IsChar s → string_bytes 0 (escaped s ++ 0x22 ∷ rest) ≡ some (s, rest)
unfolding escaped
bytes_lem [] rest h = (end_lem rest).0
bytes_lem (c ∷ cs) rest (h, hs) =
    ap (string_bytes 0) (append_assoc (escape_byte c) (escaped cs) (0x22 ∷ rest))
    ∙ (escape_byte-ReadsAs c h.0).bytes_eq (escaped cs ++ 0x22 ∷ rest)
    ∙ ap (put_bytes (c ∷ [])) (bytes_lem cs rest hs)

size_lem :
    (s rest : Bytes)
    → All IsChar s
    → (m : ℕ) × (string_size false (escaped s ++ 0x22 ∷ rest) ≡ some m)
unfolding escaped
size_lem [] rest h = (0, (end_lem rest).1)
size_lem (c ∷ cs) rest (h, hs) =
    let (n, tail) = size_lem cs rest hs in
    let (m, whole) = (escape_byte-ReadsAs c h.0).size_eq (escaped cs ++ 0x22 ∷ rest) n tail in
    (m, ap (string_size false) (append_assoc (escape_byte c) (escaped cs) (0x22 ∷ rest)) ∙ whole)

-- A printed string, read from the byte behind its opening quote on, is the string itself, for all
-- bytes that a C string can hold.
pub decode_string-escaped :
    (s rest : Bytes) → All IsChar s → decode_string (escaped s ++ 0x22 ∷ rest) ≡ some (s, rest)
unfolding decode_string
decode_string-escaped s rest h =
    ap (λ o. sized o (string_bytes 0 (escaped s ++ 0x22 ∷ rest))) (size_lem s rest h).1
    ∙ bytes_lem s rest h
