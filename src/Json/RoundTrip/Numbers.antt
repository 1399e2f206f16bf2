-- ===== src/Json/RoundTrip/Numbers.antt =====
-- A printed long is decoded to the same number, where a bracket, a brace, a space or the end follows.
use dbslayer.Prelude.{
  ℕ, zero, suc, ◌+◌, ◌-◌, ◌*◌, ◌/◌, ◌%◌, ◌^◌, ◌<◌, ◌≡◌, ◌||◌, refl, sym, ap, ◌∙◌, Bool, true, false,
  [], ◌∷◌, ◌++◌, Bytes, ltb, ◌==◌, Bool-cases, inl, inr, if◌then◌else◌, some, arith,
}
use dbslayer.Json.Value.{ℤ, pos, negsuc, long}
use dbslayer.Json.Print.{digits, print_long}
use dbslayer.Json.Scan.{
  is_digit, is_float, read_digits, clamp_long, long_of, strtol_digits, strtol, decode_number,
}

-- what follows a value in a printed text
abbrev pub Stops : Bytes → Type 0
Stops [] = Unit
Stops (c ∷ cs) = (c == b' ' || c == b']' || c == b'}') ≡ true

-- the numbers that a `long` holds
abbrev pub IsLong : ℤ → Type 0
IsLong (pos n) = n < 2 ^ 63
IsLong (negsuc n) = n < 2 ^ 63

abbrev last_digit : ℕ → ℕ
last_digit n = b'0' + n % 10

-- one digit or more, by the branch that `digits` takes
digits_step :
    (left n : ℕ) (out : Bytes)
    → digits (suc left) n out
      ≡ (if ltb n 10 then (b'0' + n) ∷ out else digits left (n / 10) (last_digit n ∷ out))
unfolding digits
digits_step left n out = refl

if_append :
    (b : Bool) (s t rest : Bytes)
    → (if b then s else t) ++ rest ≡ (if b then s ++ rest else t ++ rest)
if_append true s t rest = refl
if_append false s t rest = refl

digits-append :
    (left n : ℕ) (out rest : Bytes) → digits left n out ++ rest ≡ digits left n (out ++ rest)
unfolding digits
digits-append zero n out rest = refl
digits-append (suc left) n out rest =
    if_append (ltb n 10) ((b'0' + n) ∷ out) _ rest
    ∙ ap (λ t. if ltb n 10 then (b'0' + n) ∷ (out ++ rest) else t)
        (digits-append left (n / 10) (last_digit n ∷ out) rest)

pow_lem : (left n : ℕ) → n < 10 ^ suc left → n / 10 < 10 ^ left
pow_lem left n h = grind arith

read_digits_step :
    (n c : ℕ) (cs : Bytes)
    → is_digit c ≡ true
    → read_digits n (c ∷ cs) ≡ read_digits (n * 10 + (c - b'0')) cs
unfolding read_digits
read_digits_step n c cs h = rw h

is_digit-add : (n : ℕ) → n < 10 → is_digit (b'0' + n) ≡ true
is_digit-add n h = ground (arith, h)

read_digits-digits :
    (left n : ℕ) (out : Bytes)
    → n < 10 ^ left
    → read_digits 0 (digits left n out) ≡ read_digits n out
unfolding digits
read_digits-digits zero n out h = ap (λ k. read_digits k out) (omega (arith, h))
read_digits-digits (suc left) n out h = elim (Bool-cases (ltb n 10)) [
  | inl e ↦ rw e (
      read_digits_step 0 (b'0' + n) out (is_digit-add n (ground (arith, e)))
      ∙ ap (λ k. read_digits k out) (omega arith))
  | inr e ↦ rw e (
      read_digits-digits left (n / 10) (last_digit n ∷ out) (pow_lem left n h)
      ∙ read_digits_step (n / 10) (last_digit n) out (is_digit-add (n % 10) (omega arith))
      ∙ ap (λ k. read_digits k out) (omega arith))
]

is_float_step :
    (first : Bool) (c : ℕ) (cs : Bytes)
    → is_digit c ≡ true
    → is_float first (c ∷ cs) ≡ is_float false cs
unfolding is_float
is_float_step first c cs h = rw h

is_float-digits :
    (left n : ℕ) (first : Bool) (c : ℕ) (out : Bytes)
    → is_digit c ≡ true
    → is_float first (digits left n (c ∷ out)) ≡ is_float false out
unfolding digits
is_float-digits zero n first c out h = is_float_step first c out h
is_float-digits (suc left) n first c out h = elim (Bool-cases (ltb n 10)) [
  | inl e ↦ rw e (
      is_float_step first (b'0' + n) (c ∷ out) (is_digit-add n (ground (arith, e)))
      ∙ is_float_step false c out h)
  | inr e ↦ rw e (
      is_float-digits left (n / 10) first (last_digit n) (c ∷ out)
        (is_digit-add (n % 10) (omega arith))
      ∙ is_float_step false c out h)
]

-- a text that begins with a digit
record BeginsDigit (t : Bytes) : Type 0 where
  pub first : ℕ
  pub others : Bytes
  pub text_eq : t ≡ first ∷ others
  pub first_digit : is_digit first ≡ true

digits-BeginsDigit :
    (left n c : ℕ) (out : Bytes) → is_digit c ≡ true → BeginsDigit (digits left n (c ∷ out))
unfolding digits
digits-BeginsDigit zero n c out h = record {
  first = c;
  others = out;
  text_eq = refl;
  first_digit = h;
}
digits-BeginsDigit (suc left) n c out h = elim (Bool-cases (ltb n 10)) [
  | inl e ↦ rw e record {
    first = b'0' + n;
    others = c ∷ out;
    text_eq = refl;
    first_digit = is_digit-add n (ground (arith, e));
  }
  | inr e ↦ rw e (
      digits-BeginsDigit left (n / 10) (last_digit n) (c ∷ out)
        (is_digit-add (n % 10) (omega arith)))
]

-- the whole of a printed natural number
record IsNumeral (n : ℕ) (t rest : Bytes) : Type 0 where
  pub begins : BeginsDigit t
  pub float_eq : (first : Bool) → is_float first t ≡ is_float false rest
  pub value_eq : read_digits 0 t ≡ read_digits n rest

digits-IsNumeral :
    (left n : ℕ) (rest : Bytes) → n < 10 ^ suc left → IsNumeral n (digits (suc left) n rest) rest
unfolding digits
digits-IsNumeral left n rest h = record {
  begins = elim (Bool-cases (ltb n 10)) [
    | inl e ↦ rw e record {
      first = b'0' + n;
      others = rest;
      text_eq = refl;
      first_digit = is_digit-add n (ground (arith, e));
    }
    | inr e ↦
        rw e (
          digits-BeginsDigit left (n / 10) (last_digit n) rest
            (is_digit-add (n % 10) (omega arith)))
  ];
  float_eq = λ first. elim (Bool-cases (ltb n 10)) [
    | inl e ↦ rw e (is_float_step first (b'0' + n) rest (is_digit-add n (ground (arith, e))))
    | inr e ↦ rw e (
        is_float-digits left (n / 10) first (last_digit n) rest
          (is_digit-add (n % 10) (omega arith)))
  ];
  value_eq = read_digits-digits (suc left) n rest h;
}

stops_lem :
    (n : ℕ) (rest : Bytes)
    → Stops rest
    → (is_float false rest ≡ false) × (read_digits n rest ≡ (n, rest))
unfolding is_float read_digits
stops_lem n [] h = (refl, refl)
stops_lem n (c ∷ cs) h = (ground (arith, h), ground (arith, h))

strtol_digits_step :
    (negative : Bool) (c : ℕ) (cs : Bytes)
    → is_digit c ≡ true
    → strtol_digits negative (c ∷ cs) ≡ long_of negative (read_digits 0 (c ∷ cs))
unfolding strtol_digits
strtol_digits_step negative c cs h = rw h

strtol_digits_lem :
    (negative : Bool) (n : ℕ) (t rest : Bytes)
    → IsNumeral n t rest
    → Stops rest
    → strtol_digits negative t ≡ some (clamp_long negative n, rest)
strtol_digits_lem negative n t rest k h =
    let b = k.begins in
    ap (strtol_digits negative) b.text_eq
    ∙ strtol_digits_step negative b.first b.others b.first_digit
    ∙ ap (long_of negative)
        (sym (ap (read_digits 0) b.text_eq) ∙ k.value_eq ∙ (stops_lem n rest h).1)

plain_lem :
    (n : ℕ) (t rest : Bytes)
    → IsNumeral n t rest
    → Stops rest
    → strtol t ≡ some (clamp_long false n, rest)
unfolding strtol
plain_lem n t rest k h =
    let b = k.begins in
    ap strtol b.text_eq
    ∙ minus_lem b.first b.others b.first_digit
    ∙ ap (strtol_digits false) (sym b.text_eq)
    ∙ strtol_digits_lem false n t rest k h
  where
    minus_lem :
        (c : ℕ) (cs : Bytes) → is_digit c ≡ true → strtol (c ∷ cs) ≡ strtol_digits false (c ∷ cs)
    minus_lem c cs h = ground (arith, h)

number_lem :
    (strtod : Bytes → ℕ × ℕ) (t rest : Bytes) (n : ℤ)
    → is_float true t ≡ false
    → strtol t ≡ some (n, rest)
    → decode_number strtod t ≡ some (long n, rest)
unfolding decode_number
number_lem strtod t rest n f e = rw f (rw e)

minus_float : (t : Bytes) → is_float true (b'-' ∷ t) ≡ is_float false t
unfolding is_float
minus_float t = refl

minus_strtol : (t : Bytes) → strtol (b'-' ∷ t) ≡ strtol_digits true t
unfolding strtol
minus_strtol t = refl

clamp_pos : (n : ℕ) → n < 2 ^ 63 → clamp_long false n ≡ pos n
unfolding clamp_long
clamp_pos n h = ground (arith, h)

clamp_neg : (n : ℕ) → n < 2 ^ 63 → clamp_long true (suc n) ≡ negsuc n
unfolding clamp_long
clamp_neg n h = ground (arith, h)

-- how a printed long begins
abbrev pub BeginsNumber : Bytes → Type 0
BeginsNumber t = (c : ℕ) × (cs : Bytes) × (t ≡ c ∷ cs) × ((c == b'-' || is_digit c) ≡ true)

-- A printed long is decoded to itself.
pub decode_number-print_long :
    (strtod : Bytes → ℕ × ℕ) (n : ℤ) (rest : Bytes)
    → IsLong n
    → Stops rest
    → (decode_number strtod (print_long n ++ rest) ≡ some (long n, rest))
      × BeginsNumber (print_long n ++ rest)
unfolding print_long
decode_number-print_long strtod (pos n) rest l h =
    let text = digits-append 20 n [] rest in
    let k = digits-IsNumeral 19 n rest (omega (arith, l)) in
    let b = k.begins in
    (
      ap (decode_number strtod) text
          ∙ number_lem strtod (digits 20 n rest) rest (pos n)
              (k.float_eq true ∙ (stops_lem n rest h).0)
              (plain_lem n (digits 20 n rest) rest k h ∙ ap (λ m. some (m, rest)) (clamp_pos n l)),
      (b.first, b.others, text ∙ b.text_eq, ground (arith, b.first_digit)),
    )
decode_number-print_long strtod (negsuc n) rest l h =
    let text = ap (λ t. b'-' ∷ t) (digits-append 20 (n + 1) [] rest) in
    let k = digits-IsNumeral 19 (n + 1) rest (omega (arith, l)) in
    (
      ap (decode_number strtod) text
          ∙ number_lem strtod (b'-' ∷ digits 20 (n + 1) rest) rest (negsuc n)
              (minus_float (digits 20 (n + 1) rest) ∙ k.float_eq false ∙ (stops_lem n rest h).0)
              (minus_strtol (digits 20 (n + 1) rest)
                ∙ strtol_digits_lem true (n + 1) (digits 20 (n + 1) rest) rest k h
                ∙ ap (λ m. some (m, rest)) (ap (clamp_long true) (omega arith) ∙ clamp_neg n l)),
      (b'-', digits 20 (n + 1) rest, text, refl),
    )
