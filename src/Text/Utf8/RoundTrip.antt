-- ===== src/Text/Utf8/RoundTrip.antt =====
-- UTF-8 as a reference decodes it, and the four digits of an escape.
use dbslayer.Prelude.{
  ℕ, ◌+◌, ◌-◌, ◌*◌, ◌/◌, ◌%◌, ◌^◌, ◌<◌, ◌≤◌, ◌≡◌, refl, ap, ◌∙◌, Bool, true, false, [], ◌∷◌, Bytes,
  length, ltb, if◌then◌else◌, Option, some, arith, digit, hex_value-digit,
}
use dbslayer.Text.Utf8.{escaped2utf8, continuation, hex2int_from, hex2int, if_digit}

-- what a first byte adds to the code, by its range
abbrev pub lead_bits : ℕ → ℕ
lead_bits b =
    if ltb b 0x80
    then b
    else if ltb b 0xE0
    then b - 0xC0
    else if ltb b 0xF0
    then b - 0xE0
    else if ltb b 0xF8
    then b - 0xF0
    else if ltb b 0xFC
    then b - 0xF8
    else b - 0xFC

abbrev more_bits : ℕ → Bytes → ℕ
more_bits code [] = code
more_bits code (b ∷ bs) = more_bits (code * 64 + (b - 128)) bs

-- the code point of one encoded character
abbrev pub decoded : Bytes → ℕ
decoded [] = 0
decoded (b ∷ bs) = more_bits (lead_bits b) bs

-- how many bytes the first one announces
abbrev pub announced : ℕ → ℕ
announced b =
    if ltb b 0x80
    then 1
    else if ltb b 0xE0
    then 2
    else if ltb b 0xF0
    then 3
    else if ltb b 0xF8
    then 4
    else if ltb b 0xFC
    then 5
    else 6

abbrev FirstAnnounces : Bytes → Type 0
FirstAnnounces [] = ⊥
FirstAnnounces (b ∷ bs) = length (b ∷ bs) ≡ announced b

-- `bs` is an encoding of `code`, of the length that its first byte announces
pub record Encodes (code : ℕ) (bs : Bytes) : Type 0 where
  pub decoded_eq : decoded bs ≡ code
  pub announced_eq : FirstAnnounces bs

abbrev pub EncodesSome : ℕ → Option Bytes → Type 0
EncodesSome code o = (bs : Bytes) × ((o ≡ some bs) × Encodes code bs)

two : (c : ℕ) → 0x80 ≤ c → c < 0x800 → Encodes c ((192 + c / 64) ∷ continuation c ∷ [])
two c lo hi = record { decoded_eq = ground arith; announced_eq = ground arith }

three :
    (c : ℕ)
    → 0x800 ≤ c
    → c < 0x10000
    → Encodes c ((224 + c / 4096) ∷ continuation (c / 64) ∷ continuation c ∷ [])
three c lo hi = record { decoded_eq = ground arith; announced_eq = ground arith }

four :
    (c : ℕ)
    → 0x10000 ≤ c
    → c < 0x200000
    → Encodes c
        ((240 + c / 262144) ∷ continuation (c / 4096) ∷ continuation (c / 64) ∷ continuation c ∷ [])
four c lo hi = record { decoded_eq = ground arith; announced_eq = ground arith }

five :
    (c : ℕ)
    → 0x200000 ≤ c
    → c < 0x4000000
    → Encodes c (
        (248 + c / 16777216)
        ∷ continuation (c / 262144)
        ∷ continuation (c / 4096)
        ∷ continuation (c / 64)
        ∷ continuation c
        ∷ [])
five c lo hi = record { decoded_eq = ground arith; announced_eq = ground arith }

six :
    (c : ℕ)
    → 0x4000000 ≤ c
    → c ≤ 0x7FFFFFFF
    → Encodes c (
        (252 + c / 1073741824)
        ∷ continuation (c / 16777216)
        ∷ continuation (c / 262144)
        ∷ continuation (c / 4096)
        ∷ continuation (c / 64)
        ∷ continuation c
        ∷ [])
six c lo hi = record { decoded_eq = ground arith; announced_eq = ground arith }

encodes_if :
    (b : Bool) (code : ℕ) (o p : Option Bytes)
    → (b ≡ true → EncodesSome code o)
    → (b ≡ false → EncodesSome code p)
    → EncodesSome code (if b then o else p)
encodes_if true code o p h k = h refl
encodes_if false code o p h k = k refl

-- Every code up to 0x7FFFFFFF is encoded: the bytes decode to it, and they are as many as the first
-- of them announces.
pub escaped2utf8-EncodesSome : (code : ℕ) → code ≤ 0x7FFFFFFF → EncodesSome code (escaped2utf8 code)
unfolding escaped2utf8
escaped2utf8-EncodesSome c le =
    encodes_if (ltb 0x7FFFFFFF c) c _ _ (λ t. ground arith)
      (λ f.
        encodes_if (ltb c 0x80) c _ _
          (λ t. (_, (refl, record { decoded_eq = ground arith; announced_eq = ground arith })))
          (λ f1.
            encodes_if (ltb c 0x800) c _ _ (λ t. (_, (refl, two c (ground arith) (ground arith))))
              (λ f2.
                encodes_if (ltb c 0x10000) c _ _
                  (λ t. (_, (refl, three c (ground arith) (ground arith))))
                  (λ f3.
                    encodes_if (ltb c 0x200000) c _ _
                      (λ t. (_, (refl, four c (ground arith) (ground arith))))
                      (λ f4.
                        encodes_if (ltb c 0x4000000) c _ _
                          (λ t. (_, (refl, five c (ground arith) (ground arith))))
                          (λ f5. (_, (refl, six c (ground arith) le))))))))

-- the four digits of an escape
abbrev pub escape_digits : ℕ → Bytes
escape_digits n =
    digit (n / 4096) ∷ digit (n / 256 % 16) ∷ digit (n / 16 % 16) ∷ digit (n % 16) ∷ []

hex2int_from-digit :
    (result d : ℕ) (rest : Bytes)
    → d < 16
    → hex2int_from result (digit d ∷ rest) ≡ hex2int_from (result + 16 ^ length rest * d) rest
unfolding hex2int_from
hex2int_from-digit result d rest h =
    ap (λ o. if_digit o (λ v. hex2int_from (result + 16 ^ length rest * v) rest))
      (hex_value-digit d h)

hex2int_from-nil : (result : ℕ) → hex2int_from result [] ≡ some result
unfolding hex2int_from
hex2int_from-nil result = refl

last_lem :
    (n : ℕ)
    → n < 0x10000
    → 0 + 4096 * (n / 4096) + 256 * (n / 256 % 16) + 16 * (n / 16 % 16) + 1 * (n % 16) ≡ n
last_lem n h = omega arith

-- `slayer_hex2int` reads the four digits of every number below 0x10000.
pub hex2int-escape_digits : (n : ℕ) → n < 0x10000 → hex2int (escape_digits n) ≡ some n
hex2int-escape_digits n h =
    hex2int_from-digit 0 (n / 4096) _ (omega arith)
    ∙ hex2int_from-digit _ (n / 256 % 16) _ (omega arith)
    ∙ hex2int_from-digit _ (n / 16 % 16) _ (omega arith)
    ∙ hex2int_from-digit _ (n % 16) _ (omega arith)
    ∙ hex2int_from-nil _
    ∙ ap some (last_lem n h)
