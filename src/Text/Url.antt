-- ===== src/Text/Url.antt =====
-- common/urldecode.c: `hexval` is `hex_value` with `none` for -1, and `urldecode`.
pub mod RoundTrip
use dbslayer.Prelude.{
  ℕ, zero, suc, ◌+◌, ◌*◌, List, [], ◌∷◌, Bytes, ◌==◌, if◌then◌else◌, Option, none, some, hex_value,
}

-- `(hi << 4) | lo`, when both are digits
abbrev pub pair_value : Option ℕ → Option ℕ → Option ℕ
pair_value none lo = none
pair_value (some hi) none = none
pair_value (some hi) (some lo) = some (hi * 16 + lo)

-- a valid %XX escape at `c` and the bytes behind it
unfoldable pub escape_value : ℕ → Bytes → Option ℕ
escape_value c [] = none
escape_value c (a ∷ []) = none
escape_value c (a ∷ b ∷ cs) = if c == b'%' then pair_value (hex_value a) (hex_value b) else none

abbrev pub plain_byte : ℕ → ℕ
plain_byte c = if c == b'+' then b' ' else c

abbrev pub put_byte : Option ℕ → ℕ → (ℕ → Bytes) → Bytes
put_byte none c loop = plain_byte c ∷ loop 0
put_byte (some v) c loop = v ∷ loop 2

-- The loop; the first argument counts the bytes of an escape that are still to be passed over.
unfoldable pub urldecode_from : ℕ → Bytes → Bytes
unfolding escape_value
urldecode_from skip [] = []
urldecode_from (suc skip) (c ∷ cs) = urldecode_from skip cs
urldecode_from zero (c ∷ cs) = put_byte (escape_value c cs) c (λ k. urldecode_from k cs)

abbrev pub urldecode : Bytes → Bytes
urldecode = urldecode_from 0
