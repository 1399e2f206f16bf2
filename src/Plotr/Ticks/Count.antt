-- ===== src/Plotr/Ticks/Count.antt =====
-- How many ticks an axis gets when they are spread evenly, and where they lie.
use dbslayer.Prelude.{
  ℕ, zero, suc, ◌+◌, ◌-◌, ◌≤◌, subst, sym, Bool-cases, inl, inr, ◌≡◌, ◌≢◌, refl, Bool, true, false,
  List, [], ◌∷◌, length, Option, none, some, All, arith, if◌then◌else◌, ltb, ◌==◌,
}
use dbslayer.Plotr.Number.{Number}
use dbslayer.Plotr.Chart.{Chart, Item, Tick}
use dbslayer.Plotr.Ticks.{
  x_ticks_from, y_ticks_from, eval_x_ticks, eval_y_ticks, is_outside, unique_indices, even_x_ticks,
  x_ticks_of, y_ticks_of, rough_separation,
}

module _ (num : Number) where
  open num use {Num}

  -- a tick, and not `undefined`, that is not off the axis
  abbrev pub IsShown : Option (Tick num) → Type 0
  IsShown none = ⊥
  IsShown (some t) = is_outside num t.pos ≡ false

  -- at most `n` ticks, each of them shown
  pub record AreSpread (n : ℕ) (ts : List (Option (Tick num))) : Type 0 where
    pub length_le : length ts ≤ n
    pub are_shown : All IsShown ts

  none_spread : (n : ℕ) → AreSpread n []
  none_spread n = record { length_le = omega arith; are_shown = tt }

  one_more :
      (n : ℕ) (t : Option (Tick num)) (ts : List (Option (Tick num)))
      → IsShown t
      → AreSpread n ts
      → AreSpread (suc n) (t ∷ ts)
  one_more n t ts p h = record {
    length_le = omega (arith, h.length_le);
    are_shown = (p, h.are_shown);
  }

  weaken : (m n : ℕ) (ts : List (Option (Tick num))) → m ≤ n → AreSpread m ts → AreSpread n ts
  weaken m n ts le h = record { length_le = omega (arith, h.length_le); are_shown = h.are_shown }

  shown_or :
      (b : Bool) (n : ℕ) (t : Tick num) (rest skipped : List (Option (Tick num)))
      → is_outside num t.pos ≡ b
      → AreSpread n rest
      → AreSpread (suc n) skipped
      → AreSpread (suc n) (if b then skipped else some t ∷ rest)
  shown_or true n t rest skipped e h k = k
  shown_or false n t rest skipped e h k = one_more n (some t) rest e h

  y_ticks_from-AreSpread :
      (c : Chart num) (rough : Num) (i n : ℕ) → AreSpread n (y_ticks_from num c rough i n)
  unfolding y_ticks_from
  y_ticks_from-AreSpread c rough i zero = none_spread 0
  y_ticks_from-AreSpread c rough i (suc n) =
      let h = y_ticks_from-AreSpread c rough (i + 1) n in
      shown_or _ n _ _ _ refl h (weaken n (suc n) _ (omega arith) h)

  break_spread :
      (m wanted count : ℕ) (rest : List (Option (Tick num)))
      → (count ≤ wanted → AreSpread m rest)
      → AreSpread m (if ltb wanted count then [] else rest)
  break_spread m wanted count rest h = elim (Bool-cases (ltb wanted count)) [
    | inl e ↦ subst (λ b. AreSpread m (if b then [] else rest)) (sym e) (none_spread m)
    | inr e ↦ subst (λ b. AreSpread m (if b then [] else rest)) (sym e) (h (ground arith))
  ]

  round_spread :
      (reached outside : Bool) (t : Tick num) (wanted count : ℕ)
      (pushed skipped : List (Option (Tick num)))
      → is_outside num t.pos ≡ outside
      → count ≤ wanted
      → (count + 1 ≤ wanted → AreSpread (wanted - count) pushed)
      → AreSpread (suc (wanted - count)) skipped
      → AreSpread (suc (wanted - count)) (
          if reached
          then if outside then skipped else some t ∷ (if ltb wanted (count + 1) then [] else pushed)
          else if ltb wanted count
          then []
          else skipped)
  round_spread true outside t wanted count pushed skipped e le h k =
      shown_or outside _ t _ skipped e (break_spread _ wanted (count + 1) pushed h) k
  round_spread false outside t wanted count pushed skipped e le h k =
      break_spread _ wanted count skipped (λ _. k)

  x_ticks_from-AreSpread :
      (c : Chart num) (rough : Num) (wanted count : ℕ) (vs : List Num)
      → count ≤ wanted
      → AreSpread (suc (wanted - count)) (x_ticks_from num c rough wanted count vs)
  unfolding x_ticks_from
  x_ticks_from-AreSpread c rough wanted count [] le = none_spread _
  x_ticks_from-AreSpread c rough wanted count (v ∷ vs) le =
      round_spread _ _ _ wanted count _ _ refl le
        (λ lt.
          subst (λ m. AreSpread m (x_ticks_from num c rough wanted (count + 1) vs))
            (omega (arith, lt)) (x_ticks_from-AreSpread c rough wanted (count + 1) vs lt))
        (x_ticks_from-AreSpread c rough wanted count vs le)

  abbrev pub HasSpread : ℕ → Option (Chart num) → Type 0
  HasSpread n o = (d : Chart num) × ((o ≡ some d) × AreSpread n d.xticks)

  even_spread :
      (c : Chart num) (ss : List (List (Item num)))
      → ss ≢ []
      → HasSpread (suc c.options.x_number_of_ticks) (even_x_ticks num c (unique_indices ss))
  unfolding unique_indices
  even_spread c [] ne = absurd (ne refl)
  even_spread c (s ∷ ss) ne =
      let n = c.options.x_number_of_ticks in
      let h = x_ticks_from-AreSpread c _ n 0 _ (omega arith) in
      (_, (refl, weaken (suc (n - 0)) (suc n) _ (omega arith) h))

  -- Without given ticks and for a number of them other than 0, the X axis of a chart with at least one
  -- data set is evaluated without an exception and gets at most one tick more than that number, and
  -- so does the Y axis. None of the ticks is `undefined` and none lies off the axis.
  pub ticks-AreSpread :
      (c : Chart num)
      → c.stores ≢ []
      → c.options.x_ticks ≡ none
      → c.options.y_ticks ≡ none
      → (c.options.x_number_of_ticks == 0) ≡ false
      → (c.options.y_number_of_ticks == 0) ≡ false
      → HasSpread (suc c.options.x_number_of_ticks) (eval_x_ticks num c)
        × AreSpread (suc c.options.y_number_of_ticks) (eval_y_ticks num c).yticks
  unfolding eval_x_ticks eval_y_ticks
  ticks-AreSpread c ne ex ey nx ny = (
    subst (λ o. HasSpread (suc c.options.x_number_of_ticks) (x_ticks_of num c o)) (sym ex)
        (subst
          (λ b.
            HasSpread (suc c.options.x_number_of_ticks)
              (if b then some c else even_x_ticks num c (unique_indices c.stores)))
          (sym nx) (even_spread c c.stores ne)),
    subst (λ o. AreSpread (suc c.options.y_number_of_ticks) (y_ticks_of num c o).yticks) (sym ey)
        (subst
          (λ b.
            AreSpread (suc c.options.y_number_of_ticks)
              (if b then c else record c {
                yticks =
                    y_ticks_from num c (rough_separation num c) 0 (suc c.options.y_number_of_ticks);
              }).yticks)
          (sym ny) (y_ticks_from-AreSpread c _ 0 (suc c.options.y_number_of_ticks))),
  )
