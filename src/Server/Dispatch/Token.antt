-- ===== src/Server/Dispatch/Token.antt =====
-- `slayer_auth_token_matches` compares its texts.
use dbslayer.Prelude.{
  ℕ, zero, suc, ◌/◌, ◌%◌, ◌^◌, ◌≤◌, ◌<◌, ◌≡◌, ◌↔◌, refl, ap, ap₂, ◌∙◌, Bool, true, false, [], ◌∷◌,
  Bytes, ◌==◌, ==_iff, if◌then◌else◌, length, All, arith, subst,
}
use dbslayer.Server.Dispatch.{xor, or_bit, or, difference_loop, auth_token_matches}

xor_zero : (w a b : ℕ) → a < 2 ^ w → b < 2 ^ w → xor w a b ≡ 0 → a ≡ b
unfolding xor
xor_zero zero a b h k e = omega (arith, h, k)
xor_zero (suc w) a b h k e =
    let half = xor_zero w (a / 2) (b / 2) (grind arith) (grind arith) (omega (arith, e)) in
    omega (arith, half, e)

xor_same : (w a : ℕ) → xor w a a ≡ 0
unfolding xor
xor_same zero a = refl
xor_same (suc w) a = omega (arith, xor_same w (a / 2))

or_bit_zero : (x y : ℕ) → or_bit x y ≡ 0 → (x ≡ 0) × (y ≡ 0)
or_bit_zero x y e = (ground (arith, e), ground (arith, e))

or_bit-le : (x y : ℕ) → y ≤ 1 → or_bit x y ≤ 1
or_bit-le x y h = ground (arith, h)

or_zero : (w a b : ℕ) → a < 2 ^ w → b < 2 ^ w → or w a b ≡ 0 → (a ≡ 0) × (b ≡ 0)
unfolding or
or_zero zero a b h k e = (omega (arith, h), omega (arith, k))
or_zero (suc w) a b h k e =
    let (x, y) = or_zero w (a / 2) (b / 2) (grind arith) (grind arith) (omega (arith, e)) in
    let (u, v) = or_bit_zero (a % 2) (b % 2) (omega (arith, e)) in
    (omega (arith, x, u), omega (arith, y, v))

xor_lt : (w a b : ℕ) → xor w a b < 2 ^ w
unfolding xor
xor_lt zero a b = omega arith
xor_lt (suc w) a b = let h = xor_lt w (a / 2) (b / 2) in grind (arith, h)

or_lt : (w a b : ℕ) → or w a b < 2 ^ w
unfolding or
or_lt zero a b = omega arith
or_lt (suc w) a b =
    let h = or_lt w (a / 2) (b / 2) in
    let k = or_bit-le (a % 2) (b % 2) (omega arith) in grind (arith, h, k)

abbrev pub IsByte : ℕ → Type 0
IsByte c = c < 256

difference_zero :
    (d : ℕ) (p e : Bytes)
    → d < 256
    → All IsByte p
    → All IsByte e
    → length p ≡ length e
    → difference_loop d p e ≡ 0
    → (d ≡ 0) × (p ≡ e)
unfolding difference_loop
difference_zero d [] [] b h k l q = (q, refl)
difference_zero d [] (y ∷ e) b h k l q = absurd (omega (arith, l))
difference_zero d (x ∷ p) [] b h k l q = absurd (omega (arith, l))
difference_zero d (x ∷ p) (y ∷ e) b (i, h) (j, k) l q =
    let (z, rest) =
      difference_zero (or 8 d (xor 8 x y)) p e (or_lt 8 d (xor 8 x y)) h k (omega (arith, l)) q in
    let (none_yet, same) = or_zero 8 d (xor 8 x y) b (xor_lt 8 x y) z in
    (none_yet, ap₂ (λ c cs. c ∷ cs) (xor_zero 8 x y i j same) rest)

difference_same : (p : Bytes) → difference_loop 0 p p ≡ 0
unfolding difference_loop or
difference_same [] = refl
difference_same (x ∷ p) =
    ap (λ d. difference_loop (or 8 0 d) p p) (xor_same 8 x) ∙ difference_same p

pub same_lem : (b c : Bool) → b ≡ true → c ≡ true → (if b then c else false) ≡ true
same_lem b c x y = rw (x, y)

-- The loop that looks at every byte decides whether two texts of bytes are the same.
pub auth_token_matches_iff :
    (p e : Bytes) → All IsByte p → All IsByte e → (auth_token_matches p e ≡ true) ↔ (p ≡ e)
unfolding auth_token_matches
auth_token_matches_iff p e h k = (sound_lem (length p == length e) refl, complete_lem)
  where
    sound_lem :
        (b : Bool)
        → (length p == length e) ≡ b
        → (if b then difference_loop 0 p e == 0 else false) ≡ true
        → p ≡ e
    sound_lem true l q =
        (difference_zero 0 p e (omega arith) h k ((==_iff (length p) (length e)).0 l)
          ((==_iff (difference_loop 0 p e) 0).0 q)).1
    sound_lem false l q = absurd (ground arith)

    complete_lem :
        p ≡ e → (if length p == length e then difference_loop 0 p e == 0 else false) ≡ true
    complete_lem q =
        subst (λ e. (if length p == length e then difference_loop 0 p e == 0 else false) ≡ true) q
          (same_lem (length p == length p) (difference_loop 0 p p == 0)
            ((==_iff (length p) (length p)).1 refl)
            ((==_iff (difference_loop 0 p p) 0).1 (difference_same p)))
