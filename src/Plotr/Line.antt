-- ===== src/Plotr/Line.antt =====
-- htdocs/plotr/LineChart.js: the points of a line chart and its evaluation.
pub mod Points
pub mod Draw
pub mod Balance
use dbslayer.Prelude.{
  Bool, true, false, ◌&&◌, List, [], ◌∷◌, ◌++◌, Bytes, Option, none, some, if◌then◌else◌,
}
use dbslayer.Plotr.Number.{Number}
use dbslayer.Plotr.Settings.{Settings}
use dbslayer.Plotr.Chart.{Chart, Item, Dataset, Point, line_chart, eval_chart}
use dbslayer.Plotr.Ticks.{eval_line_ticks}

module _ (num : Number) where
  open num use {Num, of_ℕ, sub, mul, le, parse_float}

  -- `(y <= 0.0) ? 0.0 : (y >= 1.0) ? 1.0 : y`
  abbrev pub clamped : Num → Num
  clamped y = if le y (of_ℕ 0) then of_ℕ 0 else if le (of_ℕ 1) y then of_ℕ 1 else y

  abbrev pub point_of : Chart num → Bytes → Item num → Point num
  point_of c name i = record {
    x = mul (sub (parse_float i.x_value) c.minxval) c.xscale;
    y = clamped (sub (of_ℕ 1) (mul (sub (parse_float i.y_value) c.minyval) c.yscale));
    xval = parse_float i.x_value;
    yval = parse_float i.y_value;
    name = name;
  }

  abbrev pub is_inside : Num → Bool
  is_inside x = le (of_ℕ 0) x && le x (of_ℕ 1)

  unfoldable pub store_points : Chart num → Bytes → List (Item num) → List (Point num)
  store_points c name [] = []
  store_points c name (i ∷ is) =
      let rest = store_points c name is in
      if is_inside (point_of c name i).x then point_of c name i ∷ rest else rest

  unfoldable pub all_points : Chart num → List (Dataset num) → List (Point num)
  unfolding store_points
  all_points c [] = []
  all_points c (d ∷ ds) = store_points c d.name d.items ++ all_points c ds

  -- `_evalLineChart`
  unfoldable pub eval_line_chart : Chart num → Chart num
  unfolding all_points
  eval_line_chart c = record c { points = all_points c c.data_stores }

  abbrev then_line_chart : Option (Chart num) → Option (Chart num)
  then_line_chart none = none
  then_line_chart (some c) = eval_line_ticks num (eval_line_chart c)

  -- `_evaluate`
  unfoldable pub evaluate_line :
      Option (Settings num → Settings num) → Chart num → Option (Chart num)
  evaluate_line options c = then_line_chart (eval_chart num line_chart options c)
