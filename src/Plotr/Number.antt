-- ===== src/Plotr/Number.antt =====
-- The numbers of JavaScript, as far as the charts use them. They are floating-point numbers, so the
-- type and its operations are parameters, with the laws that hold of them while nothing overflows.
use dbslayer.Prelude.{ℕ, ◌^◌, ◌≤◌, ◌≡◌, Bool, true, false, Bytes}

pub record Number : Type 1 where
  pub Num : Type 0
  -- an integer literal or the length of an array
  pub of_ℕ : ℕ → Num
  -- the value of an integer from 0 to 255
  pub to_ℕ : Num → ℕ
  pub add : Num → Num → Num
  pub sub : Num → Num → Num
  pub mul : Num → Num → Num
  pub div : Num → Num → Num
  -- the remainder `%`
  pub rem : Num → Num → Num
  -- `<=`, `<` and `==`; all three are false on NaN
  pub le : Num → Num → Bool
  pub lt : Num → Num → Bool
  pub eq : Num → Num → Bool
  pub is_finite : Num → Bool
  -- what `parseFloat(undefined)` gives
  pub nan : Num
  -- `Math.round`, `Math.min`, `Math.max`, `Math.abs`, `Math.PI`, `Math.sin`, `Math.cos`
  pub round : Num → Num
  pub min_of : Num → Num → Num
  pub max_of : Num → Num → Num
  pub abs : Num → Num
  pub pi : Num
  pub sin : Num → Num
  pub cos : Num → Num
  -- `parseFloat` and `parseInt` of a number, `toFixed`, `toString`
  pub parse_float : Num → Num
  pub parse_int : Num → Num
  pub to_fixed : Num → ℕ → Bytes
  pub to_string : Num → Bytes
  -- a `toFixed` text where the code computes with it
  pub of_text : Bytes → Num
  -- `parseFloat` of a text
  pub parse_text : Bytes → Num

-- A range whose reciprocal is neither infinite nor denormal.
abbrev pub IsScalable : (num : Number) → Number.Num num → Type 0
IsScalable num r =
    (num.le r (num.of_ℕ (2 ^ 1000)) ≡ true) × (num.is_finite (num.div (num.of_ℕ 1) r) ≡ true)

module _ (num : Number) where
  open num use {Num, of_ℕ, sub, mul, div, le, lt, eq, is_finite, parse_float}

  -- What the theorems use. The laws are those of IEEE doubles in round-to-nearest, where rounding is
  -- monotone and the finite numbers are totally ordered. A literal is finite up to 2 ^ 1000, and
  -- `parseFloat` gives a number that compares equal: it is 0 for -0.
  pub record IsOrdered : Type 0 where
    pub le_refl : (x : Num) → is_finite x ≡ true → le x x ≡ true
    pub le_trans : (x y z : Num) → le x y ≡ true → le y z ≡ true → le x z ≡ true
    -- away from NaN the two orders are each other's negation
    pub le_of_not_lt :
        (x y : Num) → is_finite x ≡ true → is_finite y ≡ true → lt x y ≡ false → le y x ≡ true
    pub le_of_lt : (x y : Num) → lt x y ≡ true → le x y ≡ true
    pub le_of_eq : (x y : Num) → eq x y ≡ true → le x y ≡ true
    pub le_of_not_le :
        (x y : Num) → is_finite x ≡ true → is_finite y ≡ true → le x y ≡ false → le y x ≡ true
    pub literals_finite : (n : ℕ) → n ≤ 2 ^ 1000 → is_finite (of_ℕ n) ≡ true
    pub zero_le_one : le (of_ℕ 0) (of_ℕ 1) ≡ true
    pub finite_between :
        (x y : Num) → le (of_ℕ 0) x ≡ true → le x y ≡ true → is_finite y ≡ true → is_finite x ≡ true
    pub sub_nonneg :
        (x y : Num)
        → is_finite x ≡ true
        → is_finite y ≡ true
        → le x y ≡ true
        → le (of_ℕ 0) (sub y x) ≡ true
    pub sub_mono :
        (x y z : Num)
        → is_finite x ≡ true
        → is_finite y ≡ true
        → is_finite z ≡ true
        → le x y ≡ true
        → le (sub x z) (sub y z) ≡ true
    pub mul_one : (x : Num) → mul x (of_ℕ 1) ≡ x
    pub mul_nonneg :
        (x y : Num)
        → is_finite x ≡ true
        → is_finite y ≡ true
        → le (of_ℕ 0) x ≡ true
        → le (of_ℕ 0) y ≡ true
        → le (of_ℕ 0) (mul x y) ≡ true
    pub mul_mono :
        (x y z : Num)
        → is_finite x ≡ true
        → is_finite y ≡ true
        → is_finite z ≡ true
        → le (of_ℕ 0) z ≡ true
        → le x y ≡ true
        → le (mul x z) (mul y z) ≡ true
    pub recip_nonneg :
        (r : Num)
        → le (of_ℕ 0) r ≡ true
        → eq r (of_ℕ 0) ≡ false
        → le (of_ℕ 0) (div (of_ℕ 1) r) ≡ true
    pub recip_le_one :
        (r : Num)
        → le (of_ℕ 0) r ≡ true
        → eq r (of_ℕ 0) ≡ false
        → IsScalable num r
        → le (mul r (div (of_ℕ 1) r)) (of_ℕ 1) ≡ true
    -- `parseFloat` reads back the text of a finite number
    pub parse_float_finite : (x : Num) → is_finite x ≡ true → is_finite (parse_float x) ≡ true
    pub parse_float_le : (x : Num) → is_finite x ≡ true → le (parse_float x) x ≡ true
    pub le_parse_float : (x : Num) → is_finite x ≡ true → le x (parse_float x) ≡ true
