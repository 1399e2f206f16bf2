-- ===== src/Plotr/Pie.antt =====
-- htdocs/plotr/PieChart.js: the slices of a pie chart and its labels.
pub mod Slices
pub mod Draw
pub mod Balance
use dbslayer.Prelude.{
  ℕ, Bool, true, false, List, [], ◌∷◌, ◌++◌, Bytes, codes, bytes_eq, map, Option, none, some,
  if◌then◌else◌,
}
use dbslayer.Plotr.Number.{Number}
use dbslayer.Plotr.Settings.{Settings, OptionTick}
use dbslayer.Plotr.Chart.{Chart, Item, Slice, Tick, pie_chart, eval_chart}

module _ (num : Number) where
  open num use {Num, of_ℕ, add, mul, div, lt, pi, to_string, to_fixed}

  -- `Plotr.Base.sum`, from the last element on
  unfoldable pub sum : List Num → Num
  sum [] = of_ℕ 0
  sum (v ∷ vs) = add (sum vs) v

  -- `2 * angle * Math.PI`
  abbrev pub radians : Num → Num
  radians angle = mul (mul (of_ℕ 2) angle) pi

  abbrev pub slice_of : Num → Num → Item num → Slice num
  slice_of total angle i =
      let fraction = div i.y_value total in
      record {
        fraction = fraction;
        xval = i.x_value;
        yval = i.y_value;
        start_angle = radians angle;
        end_angle = radians (add angle fraction);
      }

  -- the slices of the items that are left, from `angle` on
  unfoldable pub slices_from : Num → Num → List (Item num) → List (Slice num)
  slices_from total angle [] = []
  slices_from total angle (i ∷ is) =
      let skipped = slices_from total angle is in
      let rest = slices_from total (add angle (div i.y_value total)) is in
      if lt (of_ℕ 0) i.y_value then slice_of total angle i ∷ rest else skipped

  abbrev pub pie_of : Chart num → List (List (Item num)) → Option (Chart num)
  pie_of c [] = none
  pie_of c (store ∷ stores) =
      some (record c { slices = slices_from (sum (map (λ i. i.y_value) store)) (of_ℕ 0) store })

  -- `_evalPieChart`; without a data set `this.stores[0]` is undefined, which is a TypeError
  unfoldable pub eval_pie_chart : Chart num → Option (Chart num)
  unfolding sum slices_from
  eval_pie_chart c = pie_of c c.stores

  abbrev to_percentage : Num → Bytes
  to_percentage n = to_fixed (mul n (of_ℕ 100)) 1 ++ codes "%"

  abbrev with_percentage : Bytes → Slice num → Bytes
  with_percentage label s = label ++ codes " (" ++ to_percentage s.fraction ++ codes ")"

  -- the last entry wins, as each one overwrites the property of its name
  abbrev later : Option (Slice num) → Slice num → Num → Option (Slice num)
  later (some t) s v = some t
  later none s v = if bytes_eq (to_string s.xval) (to_string v) then some s else none

  -- `lookup[v]`
  unfoldable pub lookup : List (Slice num) → Num → Option (Slice num)
  unfolding bytes_eq
  lookup [] v = none
  lookup (s ∷ ss) v = later (lookup ss v) s v

  abbrev label_of : Num → Option Bytes → Bytes
  label_of v none = to_string v
  label_of v (some label) = label

  abbrev push_tick :
      Option (Slice num) → OptionTick num → List (Option (Tick num)) → List (Option (Tick num))
  push_tick none t rest = rest
  push_tick (some s) t rest =
      some (record { pos = t.v; label = with_percentage (label_of t.v t.label) s }) ∷ rest

  unfoldable pub option_ticks : List (Slice num) → List (OptionTick num) → List (Option (Tick num))
  unfolding lookup
  option_ticks ss [] = []
  option_ticks ss (t ∷ ts) = push_tick (lookup ss t.v) t (option_ticks ss ts)

  abbrev slice_tick : Slice num → Option (Tick num)
  slice_tick s = some (record { pos = s.xval; label = with_percentage (to_string s.xval) s })

  abbrev pie_ticks : List (Slice num) → Option (List (OptionTick num)) → List (Option (Tick num))
  pie_ticks ss none = map slice_tick ss
  pie_ticks ss (some ts) = option_ticks ss ts

  -- `_evalPieTicks`
  unfoldable pub eval_pie_ticks : Chart num → Chart num
  unfolding option_ticks
  eval_pie_ticks c = record c { xticks = pie_ticks c.slices c.options.x_ticks }

  abbrev then_pie_ticks : Option (Chart num) → Option (Chart num)
  then_pie_ticks none = none
  then_pie_ticks (some c) = some (eval_pie_ticks c)

  abbrev then_pie : Option (Chart num) → Option (Chart num)
  then_pie none = none
  then_pie (some c) = then_pie_ticks (eval_pie_chart c)

  -- `_evaluate`
  unfoldable pub evaluate_pie :
      Option (Settings num → Settings num) → Chart num → Option (Chart num)
  evaluate_pie options c = then_pie (eval_chart num pie_chart options c)
