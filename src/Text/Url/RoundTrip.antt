-- ===== src/Text/Url/RoundTrip.antt =====
-- What `urldecode` makes of a percent-encoded text, and how much it writes.
use dbslayer.Prelude.{
  ℕ, zero, suc, ◌/◌, ◌%◌, ◌≤◌, ◌<◌, ◌≡◌, ◌≢◌, refl, ap, ap₂, ◌∙◌, Bool, true, false, [], ◌∷◌, Bytes,
  length, if◌then◌else◌, Option, none, some, All, arith, digit, hex_value-digit,
}
use dbslayer.Text.Url.{pair_value, escape_value, put_byte, urldecode_from, urldecode}

-- A byte in percent encoding: always for the bytes that `quoted` names, as itself for the others.
abbrev pub encode_byte : (ℕ → Bool) → ℕ → Bytes → Bytes
encode_byte quoted n rest =
    if quoted n then b'%' ∷ digit (n / 16) ∷ digit (n % 16) ∷ rest else n ∷ rest

abbrev pub encode : (ℕ → Bool) → Bytes → Bytes
encode quoted [] = []
encode quoted (n ∷ ns) = encode_byte quoted n (encode quoted ns)

escape_lem :
    (n : ℕ) (rest : Bytes)
    → n < 256
    → escape_value b'%' (digit (n / 16) ∷ digit (n % 16) ∷ rest) ≡ some n
unfolding escape_value
escape_lem n rest h =
    ap₂ pair_value (hex_value-digit (n / 16) (omega arith)) (hex_value-digit (n % 16) (omega arith))
    ∙ ap some (omega arith)

plain_lem : (c : ℕ) (rest : Bytes) → c ≢ b'%' → escape_value c rest ≡ none
unfolding escape_value
plain_lem c [] h = refl
plain_lem c (a ∷ []) h = refl
plain_lem c (a ∷ b ∷ cs) h = ground arith

step_lem :
    (quoted : Bool) (n : ℕ) (rest : Bytes)
    → n < 256
    → (quoted ≡ false → n ≢ b'%')
    → (quoted ≡ false → n ≢ b'+')
    → urldecode (if quoted then b'%' ∷ digit (n / 16) ∷ digit (n % 16) ∷ rest else n ∷ rest)
      ≡ n ∷ urldecode rest
unfolding urldecode_from
step_lem true n rest h p q =
    ap (λ o. put_byte o b'%' (λ k. urldecode_from k (digit (n / 16) ∷ digit (n % 16) ∷ rest)))
      (escape_lem n rest h)
step_lem false n rest h p q =
    ap (λ o. put_byte o n (λ k. urldecode_from k rest)) (plain_lem n rest (p refl))
    ∙ ap (λ m. m ∷ urldecode rest) (ground (arith, q refl))

ne_lem : (quoted : ℕ → Bool) (c n : ℕ) → quoted c ≡ true → quoted n ≡ false → n ≢ c
ne_lem quoted c n p f e = cc

-- `urldecode` reads back every text of bytes in percent encoding, whichever further bytes are encoded
-- besides '%' and '+'.
pub urldecode-encode :
    (quoted : ℕ → Bool) (ns : Bytes)
    → quoted b'%' ≡ true
    → quoted b'+' ≡ true
    → All (λ n. n < 256) ns
    → urldecode (encode quoted ns) ≡ ns
unfolding urldecode_from
urldecode-encode quoted [] p q h = refl
urldecode-encode quoted (n ∷ ns) p q (b, h) =
    step_lem (quoted n) n (encode quoted ns) b (ne_lem quoted b'%' n p) (ne_lem quoted b'+' n q)
    ∙ ap (λ ms. n ∷ ms) (urldecode-encode quoted ns p q h)

put_lem :
    (o : Option ℕ) (c m : ℕ) (loop : ℕ → Bytes)
    → ((k : ℕ) → length (loop k) ≤ m)
    → length (put_byte o c loop) ≤ suc m
put_lem none c m loop h = omega (arith, h 0)
put_lem (some v) c m loop h = omega (arith, h 2)

length_lem : (skip : ℕ) (cs : Bytes) → length (urldecode_from skip cs) ≤ length cs
unfolding urldecode_from
length_lem skip [] = omega arith
length_lem (suc skip) (c ∷ cs) = omega (arith, length_lem skip cs)
length_lem zero (c ∷ cs) =
    put_lem (escape_value c cs) c (length cs) (λ k. urldecode_from k cs) (λ k. length_lem k cs)

-- `urldecode` writes at most as many bytes as it reads, so that they and the NUL fit its buffer.
pub length-urldecode : (cs : Bytes) → length (urldecode cs) ≤ length cs
length-urldecode cs = length_lem 0 cs
