-- ===== src/Plotr/Bar/Kept.antt =====
-- Lying bars: none is left out, and each is an upright one laid down.
use dbslayer.Prelude.{
  ℕ, ◌+◌, ◌≡◌, ◌≢◌, refl, ap, ap₂, sym, subst, All, ◌∙◌, true, List, [], ◌∷◌, ◌++◌, Bytes, Option,
  some, map, if◌then◌else◌,
}
use dbslayer.Plotr.Number.{Number, IsOrdered}
use dbslayer.Plotr.Chart.{Chart, Item, Dataset, Bar, y_data, items_of, eval_xy}
use dbslayer.Plotr.Chart.Shown.{Shown, shown_item, shown_data, map-append}
use dbslayer.Plotr.Ticks.{unique_indices}
use dbslayer.Plotr.Line.{clamped}
use dbslayer.Plotr.Bar.{
  BarSize, x_delta, lying_scale, upright_bar, lying_bar, lying_bars, lying_chart, is_lying_kept,
  store_bars, all_bars, bar_scales, eval_horiz_bar_chart,
}
use dbslayer.Plotr.Bar.Fits.{Fits, Placed, IsFitted, zero_inside, lying-Fits, fitted_lem}

module _ (num : Number) where
  open num use {Num, of_ℕ, sub, mul, eq, parse_float}

  abbrev pub shown : Bar num → Shown num
  shown b = record { name = b.name; xval = b.xval; yval = b.yval }

  module _ (laws : IsOrdered num) where
    store_lem :
        (c : Chart num) (size : BarSize num) (n : ℕ) (name : Bytes) (is : List (Item num))
        → map shown (store_bars num (lying_bar num c size n name) (is_lying_kept num) is)
          ≡ map (shown_item num name) is
    unfolding store_bars
    store_lem c size n name [] = refl
    store_lem c size n name (i ∷ is) =
        ap
          (λ b. map shown (
            if b
            then lying_bar num c size n name i
              ∷ store_bars num (lying_bar num c size n name) (is_lying_kept num) is
            else store_bars num (lying_bar num c size n name) (is_lying_kept num) is))
          (zero_inside num laws)
        ∙ ap (λ bs. shown_item num name i ∷ bs) (store_lem c size n name is)

    all_lem :
        (c : Chart num) (size : BarSize num) (n : ℕ) (ds : List (Dataset num))
        → map shown (all_bars num (lying_bar num c size) (is_lying_kept num) n ds)
          ≡ shown_data num ds
    unfolding all_bars
    all_lem c size n [] = refl
    all_lem c size n (d ∷ ds) =
        map-append _ _ _
        ∙ ap₂ (λ a b. a ++ b) (store_lem c size n d.name d.items) (all_lem c size (n + 1) ds)

    -- an upright bar, laid down
    abbrev pub laid_down : Bar num → Bar num
    laid_down b = record b { x = of_ℕ 0; y = clamped num b.x; w = b.h; h = b.w }

    -- the upright bars of all items
    abbrev pub upright : Chart num × BarSize num → List (Dataset num) → List (Bar num)
    upright (c, size) ds = all_bars num (upright_bar num c size) (λ b. true) 0 ds

    store-turned :
        (c : Chart num) (size : BarSize num) (n : ℕ) (name : Bytes) (is : List (Item num))
        → store_bars num (lying_bar num c size n name) (is_lying_kept num) is
          ≡ map laid_down (store_bars num (upright_bar num c size n name) (λ b. true) is)
    unfolding store_bars
    store-turned c size n name [] = refl
    store-turned c size n name (i ∷ is) =
        ap
          (λ b.
            if b
            then lying_bar num c size n name i
              ∷ store_bars num (lying_bar num c size n name) (is_lying_kept num) is
            else store_bars num (lying_bar num c size n name) (is_lying_kept num) is)
          (zero_inside num laws)
        ∙ ap (λ bs. lying_bar num c size n name i ∷ bs) (store-turned c size n name is)

    all-turned :
        (c : Chart num) (size : BarSize num) (n : ℕ) (ds : List (Dataset num))
        → all_bars num (lying_bar num c size) (is_lying_kept num) n ds
          ≡ map laid_down (all_bars num (upright_bar num c size) (λ b. true) n ds)
    unfolding all_bars
    all-turned c size n [] = refl
    all-turned c size n (d ∷ ds) =
        ap₂ (λ a b. a ++ b) (store-turned c size n d.name d.items) (all-turned c size (n + 1) ds)
        ∙ sym (map-append laid_down _ _)

    -- the scales of lying bars
    abbrev pub lying_scales : Chart num → List ℕ → Chart num × BarSize num
    lying_scales c us = bar_scales num (lying_scale num (x_delta num us) c.xrange) us c

    abbrev pub Shows : Chart num → List (List (Item num)) → Option (Chart num) → Type 0
    Shows c ss o =
        (d : Chart num) × (us : List ℕ) × (o ≡ some d)
        × (map shown d.bars ≡ shown_data num c.data_stores)
        × All (Fits num laws) d.bars
        × (unique_indices ss ≡ some us)
        × (d.bars ≡ map laid_down (upright (lying_scales c us) c.data_stores))

    lying-turned :
        (c : Chart num) (us : List ℕ) (scale : Num)
        → (lying_bars num (bar_scales num scale us c)).bars
          ≡ map laid_down (upright (bar_scales num scale us c) c.data_stores)
    unfolding bar_scales
    lying-turned c [] scale = all-turned (bar_scales num scale [] c).0 _ 0 c.data_stores
    lying-turned c (u ∷ []) scale = all-turned (bar_scales num scale (u ∷ []) c).0 _ 0 c.data_stores
    lying-turned c (u ∷ v ∷ us) scale =
        all-turned (bar_scales num scale (u ∷ v ∷ us) c).0 _ 0 c.data_stores

    lying_lem :
        (c : Chart num) (us : List ℕ) (scale : Num)
        → map shown (lying_bars num (bar_scales num scale us c)).bars ≡ shown_data num c.data_stores
    unfolding bar_scales
    lying_lem c [] scale = all_lem (bar_scales num scale [] c).0 _ 0 c.data_stores
    lying_lem c (u ∷ []) scale = all_lem (bar_scales num scale (u ∷ []) c).0 _ 0 c.data_stores
    lying_lem c (u ∷ v ∷ us) scale =
        all_lem (bar_scales num scale (u ∷ v ∷ us) c).0 _ 0 c.data_stores

    lying-Shows :
        (c : Chart num) (ss : List (List (Item num)))
        → ss ≢ []
        → All (Placed num laws c.minyval c.yscale) (y_data num (items_of num c.data_stores))
        → Shows c ss (lying_chart num c (unique_indices ss))
    unfolding unique_indices
    lying-Shows c [] ne h = absurd (ne refl)
    lying-Shows c (s ∷ ss) ne h =
        (_, _, refl, lying_lem c _ _, lying-Fits num laws c _ _ h, refl, lying-turned c _ _)

    -- With `stores` taken from at least one data set, and a Y axis that is fitted to finite values, none of them negative unless the
    -- origin is not zero, and a range that is 0 or has a finite reciprocal and is at most 2 ^ 1000, the
    -- evaluation of a lying bar chart raises no exception and leaves no item out: the bars are those of all
    -- data sets in their order, each with the name of its set and the parsed values of its item. Each bar is
    -- the upright bar of its item, at the scales of a lying chart, laid down: length for height, thickness for
    -- width, and its place across clamped to the chart. It begins at the left edge, its length is between 0 and
    -- 1, and it stands between 0 and 1 unless its place overflows.
    pub eval_horiz_bar_chart-shown :
        (c : Chart num)
        → IsFitted num laws c
        → Shows (eval_xy num c) c.stores (eval_horiz_bar_chart num (eval_xy num c))
    unfolding eval_horiz_bar_chart eval_xy
    eval_horiz_bar_chart-shown c h = lying-Shows (eval_xy num c) c.stores h.stores_ne (
        subst
          (λ ss.
            All (Placed num laws (eval_xy num c).minyval (eval_xy num c).yscale) (y_data num ss))
          h.stores_eq (fitted_lem num laws c h))
