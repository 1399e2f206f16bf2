-- ===== src/Prelude/Hex.antt =====
-- Digits in base 16, and tests by evaluation on a small range.
use Prim.Native.Nat.{ℕ, zero, suc, ◌+◌, ◌-◌, ◌<◌}
use mathlib.Core.Path.{◌≡◌, refl}
use mathlib.Core.Bool.{Bool, true, false, ◌&&◌}
use mathlib.Core.Option.{Option, none, some}
use native.Mathlib.Omega.{arith}
use dbslayer.Prelude.Tests.{◌==◌, leb, if◌then◌else◌}
use dbslayer.Prelude.Lists.{get_or}
use dbslayer.Prelude.Texts.{Bytes, codes}

abbrev pub hex_digits : Bytes
hex_digits = codes "0123456789abcdef"

-- the value of a digit in base 16
unfoldable pub hex_value : ℕ → Option ℕ
hex_value c =
    if leb b'0' c && leb c b'9'
    then some (c - b'0')
    else if leb b'a' c && leb c b'f'
    then some (c - b'a' + 10)
    else if leb b'A' c && leb c b'F'
    then some (c - b'A' + 10)
    else none

-- A test that evaluates to true on every number under a bound.
unfoldable pub passes_under : (ℕ → Bool) → ℕ → Bool
passes_under test zero = true
passes_under test (suc bound) = if test bound then passes_under test bound else false

pub passes_at :
    (test : ℕ → Bool) (value bound : ℕ)
    → passes_under test bound ≡ true
    → value < bound
    → test value ≡ true
unfolding passes_under
passes_at test value zero all small = ground arith
passes_at test value (suc bound) all small = ground (arith, passes_at test value bound)

abbrev pub digit : ℕ → ℕ
digit d = get_or hex_digits d 0

abbrev is_value : ℕ → Option ℕ → Bool
is_value d none = false
is_value d (some v) = v == d

is_value_sound : (d : ℕ) (o : Option ℕ) → is_value d o ≡ true → o ≡ some d
is_value_sound d none h = cc
is_value_sound d (some v) h = ground arith

digit_table : passes_under (λ d. is_value d (hex_value (digit d))) 16 ≡ true
unfolding passes_under hex_value
digit_table = refl

pub hex_value-digit : (d : ℕ) → d < 16 → hex_value (digit d) ≡ some d
hex_value-digit d h = is_value_sound d _ (passes_at _ d 16 digit_table h)
