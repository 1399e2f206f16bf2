-- ===== src/Plotr/Prototype.antt =====
-- htdocs/prototype.js: the few functions of the Prototype library that the charts call, translated
-- from its source. `collect`, `pluck`, `each` and `times` with a `push` are the iterations `map` and
-- `upto`.
use dbslayer.Prelude.{
  hex_digits, ℕ, zero, suc, ◌+◌, ◌-◌, ◌/◌, ◌%◌, List, [], ◌∷◌, ◌++◌, Bytes, length, replicate,
  Option, none, some, ltb, if◌then◌else◌, get_or,
}
use dbslayer.Plotr.Number.{Number}

-- `n.times(function(i) { result.push(f(i)); })`, from `i` on with `n` rounds to go
unfoldable pub times_from {ℓ} : {A : Type ℓ} → ℕ → ℕ → (ℕ → A) → List A
times_from i zero f = []
times_from i (suc n) f = f i ∷ times_from (i + 1) n f

abbrev pub times {ℓ} : {A : Type ℓ} → ℕ → (ℕ → A) → List A
times = times_from 0

-- `n.toString(16)` for n < 256
abbrev pub to_hex : ℕ → Bytes
to_hex n =
    if ltb n 16
    then get_or hex_digits n 0 ∷ []
    else get_or hex_digits (n / 16) 0 ∷ get_or hex_digits (n % 16) 0 ∷ []

-- `toPaddedString(2, 16)`: zeros in front up to two digits
unfoldable pub to_color_part : ℕ → Bytes
to_color_part n = replicate (2 - length (to_hex n)) b'0' ++ to_hex n

-- `array.concat` of one level
abbrev pub flatten {ℓ} : {A : Type ℓ} → List (List A) → List A
flatten [] = []
flatten (xs ∷ xss) = xs ++ flatten xss

module _ (num : Number) where
  open num use {Num, le, lt}

  -- `if (result == undefined || value >= result) result = value`
  abbrev pub larger : Option Num → Num → Num
  larger none v = v
  larger (some r) v = if le r v then v else r

  abbrev pub smaller : Option Num → Num → Num
  smaller none v = v
  smaller (some r) v = if lt v r then v else r

  unfoldable pub max_from : Option Num → List Num → Option Num
  max_from r [] = r
  max_from r (v ∷ vs) = max_from (some (larger r v)) vs

  unfoldable pub min_from : Option Num → List Num → Option Num
  min_from r [] = r
  min_from r (v ∷ vs) = min_from (some (smaller r v)) vs

-- `Enumerable.max` of lengths: all of them are naturals
unfoldable pub max_length {ℓ} : {A : Type ℓ} → ℕ → List (List A) → ℕ
max_length r [] = r
max_length r (xs ∷ xss) = max_length (if ltb (length xs) r then r else length xs) xss
