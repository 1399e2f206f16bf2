-- ===== src/Server/Stats/Rows.antt =====
-- One of the two arrays, against the values that it was given.
use dbslayer.Prelude.{
  ℕ, zero, suc, ◌≤◌, ◌<◌, ◌≡◌, refl, sym, ap, ap₂, subst, ◌∙◌, List, [], ◌∷◌, ◌++◌, append_assoc,
  length, replicate, set, drop, get_or, arith, length-append, length-set,
}
use dbslayer.Server.Stats.{next_slice}
use dbslayer.Server.Stats.Ring.{past, past-set, past-turn, get_or-set}

-- one array of the ring: its past slots hold the latest of `older`, its current one `c`
pub record Row (n o : ℕ) (xs older : List ℕ) (c : ℕ) : Type 0 where
  pub length_eq : length xs ≡ suc n
  pub past_eq : past o xs ≡ drop (length older) (replicate n 0 ++ older)
  pub current_eq : get_or xs o 0 ≡ c

pub Row-set :
    (n o : ℕ) (xs older : List ℕ) (c x : ℕ)
    → o < suc n
    → Row n o xs older c
    → Row n o (set xs o x) older x
Row-set n o xs older c x h r = record {
  length_eq = length-set xs o x ∙ r.length_eq;
  past_eq = past-set o xs x ∙ r.past_eq;
  current_eq = get_or-set o xs x (omega (arith, h, r.length_eq));
}

drop_push :
    (k : ℕ) (xs : List ℕ) (c : ℕ)
    → k ≤ length xs
    → drop 1 (drop k xs ++ c ∷ []) ≡ drop (suc k) (xs ++ c ∷ [])
drop_push zero xs c h = refl
drop_push (suc k) [] c h = absurd (omega (arith, h))
drop_push (suc k) (x ∷ xs) c h = drop_push k xs c (omega (arith, h))

pub length-replicate : (n : ℕ) → length (replicate {A = ℕ} n 0) ≡ n
length-replicate zero = refl
length-replicate (suc n) = ap suc (length-replicate n)

length_snoc : (xs : List ℕ) (c : ℕ) → suc (length xs) ≡ length (xs ++ c ∷ [])
length_snoc xs c = omega (arith, length-append xs (c ∷ []))

padded_push :
    (n : ℕ) (older : List ℕ) (c : ℕ)
    → drop 1 (drop (length older) (replicate n 0 ++ older) ++ c ∷ [])
      ≡ drop (length (older ++ c ∷ [])) (replicate n 0 ++ (older ++ c ∷ []))
padded_push n older c =
    drop_push (length older) (replicate n 0 ++ older) c
      (omega (arith, length-append (replicate n 0) older, length-replicate n))
    ∙ ap₂ (λ k ys. drop k ys) (length_snoc older c) (append_assoc (replicate n 0) older (c ∷ []))

pub next_slice_lt : (o n : ℕ) → o < n → next_slice o n < n
next_slice_lt o n h = ground arith

pub Row-turn :
    (n o m : ℕ) (xs older : List ℕ) (c x : ℕ)
    → o < suc n
    → m ≡ suc n
    → Row n o xs older c
    → Row n (next_slice o m) (set xs (next_slice o m) x) (older ++ c ∷ []) x
Row-turn n o m xs older c x h e r =
    subst (λ l. Row n (next_slice o l) (set xs (next_slice o l) x) (older ++ c ∷ []) x)
      (r.length_eq ∙ sym e)
      record {
        length_eq = length-set xs _ x ∙ r.length_eq;
        past_eq =
            past-turn o xs x (omega (arith, h, r.length_eq))
            ∙ ap₂ (λ ys y. drop 1 (ys ++ y ∷ [])) r.past_eq r.current_eq
            ∙ padded_push n older c;
        current_eq =
            get_or-set _ xs x (next_slice_lt o (length xs) (omega (arith, h, r.length_eq)));
      }
