-- ===== src/Text/Utf8.antt =====
-- common/slayer_utf8.c: `slayer_escaped2utf8` and `slayer_hex2int`, for the \uXXXX escapes of JSON.
pub mod RoundTrip
use dbslayer.Prelude.{
  ℕ, zero, suc, ◌+◌, ◌*◌, ◌/◌, ◌%◌, ◌^◌, List, [], ◌∷◌, Bytes, length, ltb, if◌then◌else◌, Option,
  none, some, hex_value,
}

-- `0x80 + (bits & 0x3F)`
abbrev pub continuation : ℕ → ℕ
continuation bits = 128 + bits % 64

-- The bytes that `apr_psprintf` writes, `none` for NULL; `code >> n` is `code / 2 ^ n`.
unfoldable pub escaped2utf8 : ℕ → Option Bytes
escaped2utf8 code =
    if ltb 0x7FFFFFFF code
    then none
    else if ltb code 0x80
    then some (code ∷ [])
    else if ltb code 0x800
    then some ((192 + code / 64) ∷ continuation code ∷ [])
    else if ltb code 0x10000
    then some ((224 + code / 4096) ∷ continuation (code / 64) ∷ continuation code ∷ [])
    else if ltb code 0x200000
    then some (
        (240 + code / 262144)
        ∷ continuation (code / 4096)
        ∷ continuation (code / 64)
        ∷ continuation code
        ∷ [])
    else if ltb code 0x4000000
    then some (
        (248 + code / 16777216)
        ∷ continuation (code / 262144)
        ∷ continuation (code / 4096)
        ∷ continuation (code / 64)
        ∷ continuation code
        ∷ [])
    else some (
        (252 + code / 1073741824)
        ∷ continuation (code / 16777216)
        ∷ continuation (code / 262144)
        ∷ continuation (code / 4096)
        ∷ continuation (code / 64)
        ∷ continuation code
        ∷ [])

abbrev pub if_digit : Option ℕ → (ℕ → Option ℕ) → Option ℕ
if_digit none loop = none
if_digit (some d) loop = loop d

-- The loop of `slayer_hex2int`, with `none` for -1. The sum stays below 16 ^ len: for the 4 digits of
-- an escape neither the int nor the double of `pow` rounds or overflows.
unfoldable pub hex2int_from : ℕ → Bytes → Option ℕ
hex2int_from result [] = some result
hex2int_from result (c ∷ cs) =
    if_digit (hex_value c) (λ d. hex2int_from (result + 16 ^ length cs * d) cs)

abbrev pub hex2int : Bytes → Option ℕ
hex2int = hex2int_from 0
