-- ===== src/Plotr/Line/Points.antt =====
-- A line chart with an X axis that is fitted to the data shows every item of every data set.
use dbslayer.Prelude.{
  ◌≡◌, refl, sym, ap, ap₂, subst, ◌∙◌, true, false, List, [], ◌∷◌, ◌++◌, Bytes, none, map,
  if◌then◌else◌, All,
}
use dbslayer.Plotr.Number.{Number, IsOrdered, IsScalable}
use dbslayer.Plotr.Chart.{
  Chart, Item, Dataset, Point, x_data, items_of, eval_xy, axis_low, axis_high, scale_of,
}
use dbslayer.Plotr.Chart.Shown.{Shown, shown_item, shown_data, map-append, All-split}
use dbslayer.Plotr.Chart.Range.{InRange, Finite, Le, fitted-InRange, scale_of-InRange}
use dbslayer.Plotr.Line.{point_of, store_points, all_points, eval_line_chart, is_inside}

module _ (num : Number) where
  open num use {Num, of_ℕ, sub, mul, eq, parse_float}

  abbrev pub shown : Point num → Shown num
  shown p = record { name = p.name; xval = p.xval; yval = p.yval }

  module _ (laws : IsOrdered num) where
    -- the values that a chart can place
    abbrev Placed : Chart num → Num → Type 0
    Placed c v = is_inside num (mul (sub (parse_float v) c.minxval) c.xscale) ≡ true

    abbrev AllInside : Num → Num → List Num → Type 0
    AllInside low high vs =
        All
          (λ v. is_inside num (mul (sub (parse_float v) low) (scale_of num (sub high low))) ≡ true)
          vs

    store_lem :
        (c : Chart num) (name : Bytes) (is : List (Item num))
        → All (Placed c) (map (λ i. i.x_value) is)
        → map shown (store_points num c name is) ≡ map (shown_item num name) is
    unfolding store_points
    store_lem c name [] h = refl
    store_lem c name (i ∷ is) (p, h) =
        ap
          (λ b. map shown (
            if b
            then point_of num c name i ∷ store_points num c name is
            else store_points num c name is))
          p
        ∙ ap (λ bs. shown_item num name i ∷ bs) (store_lem c name is h)

    all_lem :
        (c : Chart num) (ds : List (Dataset num))
        → All (Placed c) (x_data num (items_of num ds))
        → map shown (all_points num c ds) ≡ shown_data num ds
    unfolding all_points
    all_lem c [] h = refl
    all_lem c (d ∷ ds) h =
        let hs = All-split (Placed c) _ _ h in
        map-append shown _ _
        ∙ ap₂ (λ a b. a ++ b) (store_lem c d.name d.items hs.0) (all_lem c ds hs.1)

    -- an X axis that is fitted to finite numbers, with the origin at zero only if none is negative
    pub record IsFitted (c : Chart num) : Type 0 where
      pub no_axis : c.options.x_axis ≡ none
      pub stores_eq : c.stores ≡ items_of num c.data_stores
      pub finite : All (Finite num laws) (x_data num c.stores)
      pub nonneg :
          c.options.x_origin_is_zero ≡ true → All (Le num laws (of_ℕ 0)) (x_data num c.stores)
      pub scalable :
          eq (eval_xy num c).xrange (of_ℕ 0) ≡ false → IsScalable num (eval_xy num c).xrange

    pub parse_float-InRange :
        (low high v : Num) → InRange num laws low high v → InRange num laws low high (parse_float v)
    parse_float-InRange low high v r = record {
      finite_v = laws.parse_float_finite v r.finite_v;
      finite_low = r.finite_low;
      finite_high = r.finite_high;
      low_le = laws.le_trans low v (parse_float v) r.low_le (laws.le_parse_float v r.finite_v);
      le_high = laws.le_trans (parse_float v) v high (laws.parse_float_le v r.finite_v) r.le_high;
    }

    placed_lem :
        (vs : List Num) (low high : Num)
        → All (InRange num laws low high) vs
        → (eq (sub high low) (of_ℕ 0) ≡ false → IsScalable num (sub high low))
        → AllInside low high vs
    placed_lem [] low high h s = tt
    placed_lem (v ∷ vs) low high (r, h) s = (
      scale_of-InRange num laws low high (parse_float v) (parse_float-InRange low high v r) s,
      placed_lem vs low high h s,
    )

    fitted_lem : (c : Chart num) → IsFitted c → All (Placed (eval_xy num c)) (x_data num c.stores)
    unfolding eval_xy
    fitted_lem c h =
        let vs = x_data num c.stores in
        let z = c.options.x_origin_is_zero in
        subst
          (λ a.
            (eq (sub (axis_high num a vs) (axis_low num a z vs)) (of_ℕ 0) ≡ false
              → IsScalable num (sub (axis_high num a vs) (axis_low num a z vs)))
            → AllInside (axis_low num a z vs) (axis_high num a vs) vs)
          (sym h.no_axis) (placed_lem vs _ _ (fitted-InRange num laws z vs h.finite h.nonneg))
          h.scalable

    -- With `stores` taken from the data sets, and an X axis that is fitted to finite values, none of them negative unless the origin is not
    -- zero, and a range that is 0 or has a finite reciprocal and is at most 2 ^ 1000, a line chart
    -- leaves no item out: its points are those of all data sets in their order, each with the name of
    -- its set and the parsed values of its item.
    pub eval_line_chart-shown :
        (c : Chart num)
        → IsFitted c
        → map shown (eval_line_chart num (eval_xy num c)).points ≡ shown_data num c.data_stores
    unfolding eval_line_chart eval_xy
    eval_line_chart-shown c h =
        all_lem (eval_xy num c) c.data_stores
          (subst (λ ss. All (Placed (eval_xy num c)) (x_data num ss)) h.stores_eq (fitted_lem c h))
