-- ===== src/Server/Log/Ring.antt =====
-- The ring in the order of its entries: adding one drops the oldest.
use dbslayer.Prelude.{
  take_all, drop_one-drop, drop_all, ℕ, zero, suc, ◌+◌, ◌<◌, ◌≡◌, refl, sym, ap, ap₂, subst, ◌∙◌,
  Bool, true, false, List, [], ◌∷◌, ◌++◌, append_assoc, Bytes, length, set, take, drop, ◌==◌,
  if◌then◌else◌, Option, some, arith, length-set, length-append,
}
use dbslayer.Server.Log.{Log, log_add, next_offset}

-- oldest first
abbrev pub contents : Log → List (Option Bytes)
contents log = drop (suc log.offset) log.entries ++ take (suc log.offset) log.entries

module _ {ℓ} {A : Type ℓ} where
  drop-set :
      (o : ℕ) (xs : List A) (x : A) → o < length xs → drop (suc o) (set xs o x) ≡ drop (suc o) xs
  drop-set o [] x h = absurd (omega (arith, h))
  drop-set zero (y ∷ xs) x h = refl
  drop-set (suc o) (y ∷ xs) x h = drop-set o xs x (omega (arith, h))

  take-set :
      (o : ℕ) (xs : List A) (x : A)
      → o < length xs
      → take (suc o) (set xs o x) ≡ take o xs ++ x ∷ []
  take-set o [] x h = absurd (omega (arith, h))
  take-set zero (y ∷ xs) x h = refl
  take-set (suc o) (y ∷ xs) x h = ap (λ ys. y ∷ ys) (take-set o xs x (omega (arith, h)))

  push_lem :
      (b : Bool) (o : ℕ) (xs : List A) (x : A)
      → (suc o == length xs) ≡ b
      → o < length xs
      → drop (suc (if b then 0 else suc o)) (set xs (if b then 0 else suc o) x)
          ++ take (suc (if b then 0 else suc o)) (set xs (if b then 0 else suc o) x)
        ≡ drop 1 (drop (suc o) xs ++ take (suc o) xs) ++ x ∷ []
  push_lem true o xs x e h =
      ap₂ (λ ys zs. ys ++ zs) (drop-set 0 xs x (omega (arith, h)))
        (take-set 0 xs x (omega (arith, h)))
      ∙ ap₂ (λ ys zs. drop 1 (ys ++ zs) ++ x ∷ []) (sym (drop_all xs (suc o) (ground arith)))
          (sym (take_all xs (suc o) (ground arith)))
  push_lem false o xs x e h =
      ap₂ (λ ys zs. ys ++ zs) (drop-set (suc o) xs x (ground arith))
        (take-set (suc o) xs x (ground arith))
      ∙ sym (append_assoc (drop (suc (suc o)) xs) (take (suc o) xs) (x ∷ []))
      ∙ ap (λ ys. ys ++ x ∷ []) (sym (drop_one-drop (suc o) xs (take (suc o) xs) (ground arith)))

  length-split : (n : ℕ) (xs : List A) → length (drop n xs) + length (take n xs) ≡ length xs
  length-split zero xs = omega arith
  length-split (suc n) [] = refl
  length-split (suc n) (x ∷ xs) = omega (arith, length-split n xs)

  pub length-rotated : (n : ℕ) (xs : List A) → length (drop n xs ++ take n xs) ≡ length xs
  length-rotated n xs = length-append (drop n xs) (take n xs) ∙ length-split n xs

next_offset_lt : (offset n : ℕ) → offset < n → next_offset offset n < n
next_offset_lt offset n h = ground arith

-- Adding an entry keeps the offset in the ring, drops the oldest entry and puts the new one behind the
-- others.
pub contents-log_add :
    (entry : Bytes) (log : Log)
    → log.offset < length log.entries
    → (contents (log_add entry log) ≡ drop 1 (contents log) ++ some entry ∷ [])
      × ((log_add entry log).offset < length (log_add entry log).entries)
      × (length (log_add entry log).entries ≡ length log.entries)
unfolding log_add
contents-log_add entry log h = (
  push_lem _ log.offset log.entries (some entry) refl h,
  subst (λ n. next_offset log.offset (length log.entries) < n)
      (sym (length-set log.entries _ (some entry))) (next_offset_lt log.offset _ h),
  length-set log.entries _ (some entry),
)
