-- ===== src/Server/Stats/Ring.antt =====
-- The slots behind the current one, oldest first, when a slot is written and when the ring turns.
use dbslayer.Prelude.{
  drop_all, drop_one-drop, take_all, ℕ, zero, suc, ◌<◌, ◌≡◌, refl, sym, ap, ap₂, ◌∙◌, Bool, true,
  false, List, [], ◌∷◌, ◌++◌, append_assoc, append-nil, length, set, get_or, take, drop, ◌==◌,
  if◌then◌else◌, arith,
}

abbrev pub past : ℕ → List ℕ → List ℕ
past o xs = drop (suc o) xs ++ take o xs

pub get_or-set : (o : ℕ) (xs : List ℕ) (x : ℕ) → o < length xs → get_or (set xs o x) o 0 ≡ x
get_or-set o [] x h = absurd (omega (arith, h))
get_or-set zero (y ∷ xs) x h = refl
get_or-set (suc o) (y ∷ xs) x h = get_or-set o xs x (omega (arith, h))

drop-set : (o : ℕ) (xs : List ℕ) (x : ℕ) → drop (suc o) (set xs o x) ≡ drop (suc o) xs
drop-set o [] x = refl
drop-set zero (y ∷ xs) x = refl
drop-set (suc o) (y ∷ xs) x = drop-set o xs x

take-set : (o : ℕ) (xs : List ℕ) (x : ℕ) → take o (set xs o x) ≡ take o xs
take-set o [] x = refl
take-set zero (y ∷ xs) x = refl
take-set (suc o) (y ∷ xs) x = ap (λ ys. y ∷ ys) (take-set o xs x)

take-suc : (o : ℕ) (xs : List ℕ) → o < length xs → take (suc o) xs ≡ take o xs ++ get_or xs o 0 ∷ []
take-suc o [] h = absurd (omega (arith, h))
take-suc zero (y ∷ xs) h = refl
take-suc (suc o) (y ∷ xs) h = ap (λ ys. y ∷ ys) (take-suc o xs (omega (arith, h)))

-- A write of the current slot leaves the others.
pub past-set : (o : ℕ) (xs : List ℕ) (x : ℕ) → past o (set xs o x) ≡ past o xs
past-set o xs x = ap₂ (λ ys zs. ys ++ zs) (drop-set o xs x) (take-set o xs x)

turn_lem :
    (b : Bool) (o : ℕ) (xs : List ℕ)
    → (suc o == length xs) ≡ b
    → o < length xs
    → past (if b then 0 else suc o) xs ≡ drop 1 (past o xs ++ get_or xs o 0 ∷ [])
turn_lem true o xs e h =
    append-nil (drop 1 xs)
    ∙ ap (drop 1) (
        sym (take_all xs (suc o) (ground arith))
        ∙ take-suc o xs h
        ∙ ap (λ ys. (ys ++ take o xs) ++ get_or xs o 0 ∷ [])
            (sym (drop_all xs (suc o) (ground arith))))
turn_lem false o xs e h =
    ap (λ ys. drop (suc (suc o)) xs ++ ys) (take-suc o xs h)
    ∙ sym (drop_one-drop (suc o) xs (take o xs ++ get_or xs o 0 ∷ []) (ground arith))
    ∙ ap (drop 1) (sym (append_assoc (drop (suc o) xs) (take o xs) (get_or xs o 0 ∷ [])))

-- When the ring turns, the current slot follows the others, and the oldest one is written anew.
pub past-turn :
    (o : ℕ) (xs : List ℕ) (x : ℕ)
    → o < length xs
    → past
        (if suc o == length xs then 0 else suc o)
        (set xs (if suc o == length xs then 0 else suc o) x)
      ≡ drop 1 (past o xs ++ get_or xs o 0 ∷ [])
past-turn o xs x h = past-set _ xs x ∙ turn_lem _ o xs refl h
