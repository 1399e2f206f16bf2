-- ===== src/Plotr/Tests.antt =====
-- Runs of the charts, and an application of each theorem about them. The numbers are the naturals,
-- on which every law of `IsOrdered` holds.
use dbslayer.Prelude.{
  bytes_eq, ℕ, ◌+◌, ◌-◌, ◌*◌, ◌/◌, ◌%◌, ◌≡◌, refl, min, max, true, false, List, [], ◌∷◌, codes, ltb,
  leb, ◌==◌, leb→le, le→leb, arith, some, map, length,
}
use native.Mathlib.Nat.{mul-le-mul_right, mul-div-le}
use dbslayer.Plotr.Number.{Number, IsOrdered}
use dbslayer.Plotr.Color.{Rgb}
use dbslayer.Plotr.Hsb.{rgb_to_hsb, hue}
use dbslayer.Plotr.Prototype.{max_from, min_from}
use dbslayer.Plotr.Settings.{default_settings}
use dbslayer.Plotr.Chart.{Chart, Dataset, add_dataset, Item, Page, bar_chart, initial, eval_xy}
use dbslayer.Plotr.Chart.Sets.{find, find-add_dataset}
use dbslayer.Plotr.Chart.Shown.{shown_data}
use dbslayer.Plotr.Canvas.{render_background, render_axis}
use dbslayer.Plotr.Canvas.Balance.{DrawsBalanced, depth_after, canvas-DrawsBalanced}
use dbslayer.Plotr.Bar.Draw.{render_bar_chart}
use dbslayer.Plotr.Bar.Leak.{depth_after-render_bar_chart}
use dbslayer.Plotr.Line.{eval_line_chart}
use dbslayer.Plotr.Line.Points as Points
use dbslayer.Plotr.Line.Points.{IsFitted, eval_line_chart-shown}
use dbslayer.Plotr.Bar.{eval_horiz_bar_chart}
use dbslayer.Plotr.Bar.Fits as Fits
use dbslayer.Plotr.Bar.Kept as Kept
use dbslayer.Plotr.Bar.Kept.{eval_horiz_bar_chart-shown}
use dbslayer.Plotr.Pie.{eval_pie_chart, sum}
use dbslayer.Plotr.Pie.Slices.{HasPie, eval_pie_chart-ArePie}

abbrev pub naturals : Number
naturals = record {
  Num = ℕ;
  of_ℕ = λ n. n;
  to_ℕ = λ n. n;
  add = λ a b. a + b;
  sub = λ a b. a - b;
  mul = λ a b. a * b;
  div = λ a b. a / b;
  rem = λ a b. a % b;
  le = leb;
  lt = ltb;
  eq = λ a b. a == b;
  is_finite = λ n. true;
  nan = 0;
  round = λ n. n;
  min_of = min;
  max_of = max;
  abs = λ n. n;
  pi = 3;
  sin = λ n. n;
  cos = λ n. n;
  parse_float = λ n. n;
  parse_int = λ n. n;
  to_fixed = λ n k. [];
  to_string = λ n. [];
  of_text = λ t. 0;
  parse_text = length;
}

naturals-IsOrdered : IsOrdered naturals
naturals-IsOrdered = record {
  le_refl = λ x f. ground arith;
  le_trans = λ x y z h k. ground arith;
  le_of_not_lt = λ x y f g h. ground arith;
  le_of_lt = λ x y h. ground arith;
  le_of_eq = λ x y h. ground arith;
  le_of_not_le = λ x y f g h. ground arith;
  literals_finite = λ n k. refl;
  zero_le_one = refl;
  finite_between = λ x y h k f. refl;
  sub_nonneg = λ x y f g h. ground arith;
  sub_mono = λ x y z f g k h. ground arith;
  mul_one = λ x. omega arith;
  mul_nonneg = λ x y f g h k. ground arith;
  mul_mono = λ x y z f g k h l. le→leb _ _ (mul-le-mul_right z (leb→le x y l));
  recip_nonneg = λ r h e. ground arith;
  recip_le_one = λ r h e s. le→leb _ _ (mul-div-le 1 r);
  parse_float_finite = λ x f. refl;
  parse_float_le = λ x f. ground arith;
  le_parse_float = λ x f. ground arith;
}

abbrev dark_green : Rgb
dark_green = record { r = 60; g = 88; b = 26 }

green_hsb : rgb_to_hsb dark_green ≡ record { h = 87; s = 70; b = 35 }
unfolding rgb_to_hsb hue
green_hsb = refl

abbrev page : Page naturals
page = record {
  has_canvas = true;
  is_in_div = true;
  is_ie = false;
  is_supported = true;
  width = 400;
  height = 200;
}

abbrev hits : List (Item naturals)
hits =
    record { x_value = 0; y_value = 7 }
    ∷ record { x_value = 1; y_value = 0 }
    ∷ record { x_value = 2; y_value = 9 }
    ∷ []

abbrev slow : List (Item naturals)
slow = record { x_value = 1; y_value = 3 } ∷ []

abbrev pub chart : Chart naturals
chart = record (initial naturals (default_settings naturals []) page) {
  data_stores =
      record { name = codes "hits"; items = hits }
      ∷ record { name = codes "slow"; items = slow }
      ∷ [];
  stores = hits ∷ slow ∷ [];
  sets = 2;
}

chart-IsFitted : IsFitted naturals naturals-IsOrdered chart
unfolding eval_xy max_from min_from
chart-IsFitted = record {
  no_axis = refl;
  stores_eq = refl;
  finite = (refl, (refl, (refl, (refl, tt))));
  nonneg = λ e. (refl, (refl, (refl, (refl, tt))));
  scalable = λ e. (refl, refl);
}

eval_line_chart-shown_example :
    map (Points.shown naturals) (eval_line_chart naturals (eval_xy naturals chart)).points
    ≡ shown_data naturals chart.data_stores
eval_line_chart-shown_example =
    eval_line_chart-shown naturals naturals-IsOrdered chart chart-IsFitted

chart-IsFittedY : Fits.IsFitted naturals naturals-IsOrdered chart
unfolding eval_xy max_from min_from
chart-IsFittedY = record {
  no_axis = refl;
  stores_eq = refl;
  stores_ne = ground arith;
  finite = (refl, (refl, (refl, (refl, tt))));
  nonneg = λ e. (refl, (refl, (refl, (refl, tt))));
  scalable = λ e. (refl, refl);
}

eval_horiz_bar_chart-shown_example :
    Kept.Shows naturals naturals-IsOrdered
      (eval_xy naturals chart)
      chart.stores
      (eval_horiz_bar_chart naturals (eval_xy naturals chart))
eval_horiz_bar_chart-shown_example =
    eval_horiz_bar_chart-shown naturals naturals-IsOrdered chart chart-IsFittedY

eval_pie_chart-ArePie_example : HasPie naturals 16 hits (eval_pie_chart naturals chart)
unfolding sum
eval_pie_chart-ArePie_example = eval_pie_chart-ArePie naturals chart hits (slow ∷ []) refl

-- a chart as it is before it is drawn, with a bar of no height
abbrev evaluated : Chart naturals
evaluated = record chart {
  xticks = some (record { pos = 0; label = codes "0" }) ∷ [];
  yticks = some (record { pos = 1; label = codes "9" }) ∷ [];
  points = record { x = 1; y = 0; xval = 1; yval = 3; name = codes "slow" } ∷ [];
  bars =
      record { x = 0; y = 1; w = 1; h = 0; xval = 0; yval = 0; name = codes "hits" }
      ∷ record { x = 0; y = 0; w = 1; h = 1; xval = 0; yval = 7; name = codes "hits" }
      ∷ [];
  slices = record { fraction = 1; xval = 0; yval = 7; start_angle = 6; end_angle = 0 } ∷ [];
}

canvas-DrawsBalanced_example :
    DrawsBalanced naturals (render_background naturals bar_chart evaluated)
    × DrawsBalanced naturals (render_axis naturals evaluated)
canvas-DrawsBalanced_example = canvas-DrawsBalanced naturals bar_chart evaluated (tt, tt) (tt, tt)

-- The bar of no height leaves one state saved.
depth_after-render_bar_chart_example :
    depth_after naturals (render_bar_chart naturals [] evaluated) 0 ≡ some 1
unfolding bytes_eq
depth_after-render_bar_chart_example = depth_after-render_bar_chart naturals [] evaluated 0

abbrev changed : List (Dataset naturals)
changed = record { name = codes "slow"; items = hits } ∷ []

-- The data set "slow" is replaced, and counted again.
find-add_dataset_example :
    (find naturals (codes "slow") (add_dataset naturals changed chart).data_stores ≡ some hits)
    × ((add_dataset naturals changed chart).sets ≡ 3)
unfolding bytes_eq
find-add_dataset_example = find-add_dataset naturals (codes "slow") changed chart
