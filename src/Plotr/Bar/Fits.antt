-- ===== src/Plotr/Bar/Fits.antt =====
-- Lying bars keep to the area of their chart.
use dbslayer.Prelude.{
  ℕ, ◌+◌, ◌≡◌, ◌≢◌, refl, ap₂, sym, subst, All, true, false, Bool-cases, inl, inr, ◌⊎◌, arith, ◌&&◌,
  List, [], ◌∷◌, ◌++◌, Bytes, none, map, if◌then◌else◌,
}
use dbslayer.Plotr.Number.{Number, IsOrdered, IsScalable}
use dbslayer.Plotr.Chart.{
  Chart, Item, Dataset, Bar, y_data, items_of, eval_xy, axis_low, axis_high, scale_of,
}
use dbslayer.Plotr.Chart.Shown.{All-split}
use dbslayer.Plotr.Chart.Range.{InRange, Finite, Le, fitted-InRange, scale_of-InRange}
use dbslayer.Plotr.Line.Points.{parse_float-InRange}
use dbslayer.Plotr.Line.{clamped, is_inside}
use dbslayer.Plotr.Bar.{
  BarSize, lying_bar, lying_bars, is_lying_kept, store_bars, all_bars, bar_scales,
}

module _ (num : Number) where
  open num use {Num, of_ℕ, sub, mul, eq, parse_float}

  module _ (laws : IsOrdered num) where
    zero_finite : num.is_finite (of_ℕ 0) ≡ true
    zero_finite = laws.literals_finite 0 (omega arith)

    one_finite : num.is_finite (of_ℕ 1) ≡ true
    one_finite = laws.literals_finite 1 (omega arith)

    one_inside : is_inside num (of_ℕ 1) ≡ true
    one_inside = ap₂ (λ a b. a && b) laws.zero_le_one (laws.le_refl (of_ℕ 1) one_finite)

    pub zero_inside : (num.le (of_ℕ 0) (of_ℕ 0) && num.le (of_ℕ 0) (of_ℕ 1)) ≡ true
    zero_inside = ap₂ (λ a b. a && b) (laws.le_refl (of_ℕ 0) zero_finite) laws.zero_le_one

    -- a bar that begins at the left edge and ends in the area, and stands in it unless its place is not finite
    pub record Fits (b : Bar num) : Type 0 where
      pub left : b.x ≡ of_ℕ 0
      pub length_inside : is_inside num b.w ≡ true
      pub place_inside : (num.is_finite b.y ≡ false) ⊎ (is_inside num b.y ≡ true)

    clamped_lem :
        (y : Num) → (num.is_finite (clamped num y) ≡ false) ⊎ (is_inside num (clamped num y) ≡ true)
    clamped_lem y = elim (Bool-cases (num.le y (of_ℕ 0))) [
      | inl e ↦ rw e (inr zero_inside)
      | inr e ↦ elim (Bool-cases (num.le (of_ℕ 1) y)) [
        | inl f ↦ rw e (rw f (inr one_inside))
        | inr f ↦ elim (Bool-cases (num.is_finite y)) [
          | inl g ↦ rw e (
              rw f (
                inr (
                  ap₂ (λ a b. a && b) (laws.le_of_not_le y (of_ℕ 0) g zero_finite e)
                    (laws.le_of_not_le (of_ℕ 1) y one_finite g f))))
          | inr g ↦ rw e (rw f (inl g))
        ]
      ]
    ]

    -- the lengths of the bars, by the values of the items
    abbrev pub Placed : Num → Num → Num → Type 0
    Placed low scale v = is_inside num (mul (sub (parse_float v) low) scale) ≡ true

    All-join {ℓ κ} :
        {A : Type ℓ} (P : A → Type κ) (xs ys : List A) → All P xs → All P ys → All P (xs ++ ys)
    All-join P [] ys h k = k
    All-join P (x ∷ xs) ys (p, h) k = (p, All-join P xs ys h k)

    store-Fits :
        (c : Chart num) (size : BarSize num) (n : ℕ) (name : Bytes) (is : List (Item num))
        → All (Placed c.minyval c.yscale) (map (λ i. i.y_value) is)
        → All Fits (store_bars num (lying_bar num c size n name) (is_lying_kept num) is)
    unfolding store_bars
    store-Fits c size n name [] h = tt
    store-Fits c size n name (i ∷ is) (p, h) =
        subst
          (λ b. All Fits (
            if b
            then lying_bar num c size n name i
              ∷ store_bars num (lying_bar num c size n name) (is_lying_kept num) is
            else store_bars num (lying_bar num c size n name) (is_lying_kept num) is))
          (sym zero_inside)
          (
            record { left = refl; length_inside = p; place_inside = clamped_lem _ },
            store-Fits c size n name is h,
          )

    all-Fits :
        (c : Chart num) (size : BarSize num) (n : ℕ) (ds : List (Dataset num))
        → All (Placed c.minyval c.yscale) (y_data num (items_of num ds))
        → All Fits (all_bars num (lying_bar num c size) (is_lying_kept num) n ds)
    unfolding all_bars
    all-Fits c size n [] h = tt
    all-Fits c size n (d ∷ ds) h =
        let hs = All-split (Placed c.minyval c.yscale) _ _ h in
        All-join Fits _ _ (store-Fits c size n d.name d.items hs.0)
          (all-Fits c size (n + 1) ds hs.1)

    pub lying-Fits :
        (c : Chart num) (us : List ℕ) (scale : Num)
        → All (Placed c.minyval c.yscale) (y_data num (items_of num c.data_stores))
        → All Fits (lying_bars num (bar_scales num scale us c)).bars
    unfolding bar_scales
    lying-Fits c [] scale h = all-Fits (bar_scales num scale [] c).0 _ 0 c.data_stores h
    lying-Fits c (u ∷ []) scale h = all-Fits (bar_scales num scale (u ∷ []) c).0 _ 0 c.data_stores h
    lying-Fits c (u ∷ v ∷ us) scale h =
        all-Fits (bar_scales num scale (u ∷ v ∷ us) c).0 _ 0 c.data_stores h

    -- a Y axis that is fitted to finite numbers, with the origin at zero only if none is negative
    pub record IsFitted (c : Chart num) : Type 0 where
      pub no_axis : c.options.y_axis ≡ none
      pub stores_eq : c.stores ≡ items_of num c.data_stores
      pub stores_ne : c.stores ≢ []
      pub finite : All (Finite num laws) (y_data num c.stores)
      pub nonneg :
          c.options.y_origin_is_zero ≡ true → All (Le num laws (of_ℕ 0)) (y_data num c.stores)
      pub scalable :
          eq (eval_xy num c).yrange (of_ℕ 0) ≡ false → IsScalable num (eval_xy num c).yrange

    placed_lem :
        (vs : List Num) (low high : Num)
        → All (InRange num laws low high) vs
        → (eq (sub high low) (of_ℕ 0) ≡ false → IsScalable num (sub high low))
        → All (Placed low (scale_of num (sub high low))) vs
    placed_lem [] low high h s = tt
    placed_lem (v ∷ vs) low high (r, h) s = (
      scale_of-InRange num laws low high (parse_float v) (parse_float-InRange num laws low high v r)
          s,
      placed_lem vs low high h s,
    )

    pub fitted_lem :
        (c : Chart num)
        → IsFitted c
        → All (Placed (eval_xy num c).minyval (eval_xy num c).yscale) (y_data num c.stores)
    unfolding eval_xy
    fitted_lem c h =
        let vs = y_data num c.stores in
        let z = c.options.y_origin_is_zero in
        subst
          (λ a.
            (eq (sub (axis_high num a vs) (axis_low num a z vs)) (of_ℕ 0) ≡ false
              → IsScalable num (sub (axis_high num a vs) (axis_low num a z vs)))
            → All
                (Placed (axis_low num a z vs)
                  (scale_of num (sub (axis_high num a vs) (axis_low num a z vs))))
                vs)
          (sym h.no_axis) (placed_lem vs _ _ (fitted-InRange num laws z vs h.finite h.nonneg))
          h.scalable
