-- ===== src/Plotr/Bar.antt =====
-- htdocs/plotr/BarChart.js: the bars of a bar chart, upright or lying, and its ticks.
pub mod Fits
pub mod Kept
pub mod Draw
pub mod Leak
use dbslayer.Prelude.{
  ℕ, zero, suc, ◌+◌, Bool, true, false, ◌&&◌, List, [], ◌∷◌, ◌++◌, Bytes, length, Option, none,
  some, if◌then◌else◌,
}
use dbslayer.Plotr.Number.{Number}
use dbslayer.Plotr.Settings.{Settings, Orientation, vertical, horizontal}
use dbslayer.Plotr.Chart.{Chart, Item, Dataset, Bar, Tick, bar_chart, eval_chart}
use dbslayer.Plotr.Ticks.{unique_indices, eval_line_ticks}
use dbslayer.Plotr.Line.{clamped, is_inside}

module _ (num : Number) where
  open num use {Num, of_ℕ, add, sub, mul, div, le, eq, abs, min_of, parse_float}

  -- `barWidthForSet` and `barMargin`
  pub record BarSize : Type 0 where
    pub width_for_set : Num
    pub margin : Num

  -- the smallest distance of two neighbours
  unfoldable pub min_delta : Num → ℕ → List ℕ → Num
  min_delta delta u [] = delta
  min_delta delta u (v ∷ vs) = min_delta (min_of (abs (sub (of_ℕ v) (of_ℕ u))) delta) v vs

  abbrev pub x_delta : List ℕ → Num
  x_delta [] = of_ℕ 10000000
  x_delta (u ∷ us) = min_delta (of_ℕ 10000000) u us

  -- the scale of upright bars
  abbrev pub upright_scale : Num → Num
  upright_scale range =
      if eq range (of_ℕ 1)
      then div (of_ℕ 1) (of_ℕ 2)
      else if eq range (of_ℕ 2)
      then div (of_ℕ 1) (of_ℕ 3)
      else div (sub (of_ℕ 1) (div (of_ℕ 1) range)) range

  -- the scale of lying bars
  abbrev pub lying_scale : Num → Num → Num
  lying_scale delta range = div (sub (of_ℕ 1) (div delta range)) range

  -- `barWidth / this.stores.length` and `barMargin`
  abbrev single_size : Chart num → BarSize
  single_size c =
      let fill = c.options.bar_width_fill_fraction in
      record {
        width_for_set = div (mul (of_ℕ 1) fill) (of_ℕ (length c.stores));
        margin = div (sub (of_ℕ 1) fill) (of_ℕ 2);
      }

  abbrev several_size : Chart num → Num → BarSize
  several_size c delta =
      let fill = c.options.bar_width_fill_fraction in
      record {
        width_for_set = div (mul (mul delta c.xscale) fill) (of_ℕ (length c.stores));
        margin = div (mul (mul delta c.xscale) (sub (of_ℕ 1) fill)) (of_ℕ 2);
      }

  -- The branch `uniqx.length == 1` and the other one, which sets the scale `scale`.
  unfoldable pub bar_scales : Num → List ℕ → Chart num → Chart num × BarSize
  bar_scales scale (u ∷ []) c =
      (record c { xscale = of_ℕ 1; minxval = of_ℕ u; minxdelta = of_ℕ 1 }, single_size c)
  bar_scales scale us c =
      let d = record c { xscale = scale; minxdelta = x_delta us } in
      (d, several_size d (x_delta us))

  abbrev pub upright_bar : Chart num → BarSize → ℕ → Bytes → Item num → Bar num
  upright_bar c size i name item =
      let height = mul (sub (parse_float item.y_value) c.minyval) c.yscale in
      record {
        x =
            add
              (add (mul (sub (parse_float item.x_value) c.minxval) c.xscale)
                (mul (of_ℕ i) size.width_for_set))
              size.margin;
        y = sub (of_ℕ 1) height;
        w = size.width_for_set;
        h = height;
        xval = parse_float item.x_value;
        yval = parse_float item.y_value;
        name = name;
      }

  abbrev pub lying_bar : Chart num → BarSize → ℕ → Bytes → Item num → Bar num
  lying_bar c size i name item = record {
    x = of_ℕ 0;
    y = clamped num (
        add
          (add (mul (sub (parse_float item.x_value) c.minxval) c.xscale)
            (mul (of_ℕ i) size.width_for_set))
          size.margin);
    w = mul (sub (parse_float item.y_value) c.minyval) c.yscale;
    h = size.width_for_set;
    xval = parse_float item.x_value;
    yval = parse_float item.y_value;
    name = name;
  }

  abbrev pub is_upright_kept : Bar num → Bool
  is_upright_kept b = is_inside num b.x && is_inside num b.y

  abbrev pub is_lying_kept : Bar num → Bool
  is_lying_kept b = is_inside num b.x

  unfoldable pub store_bars :
      (Item num → Bar num) → (Bar num → Bool) → List (Item num) → List (Bar num)
  store_bars bar is_kept [] = []
  store_bars bar is_kept (i ∷ is) =
      let rest = store_bars bar is_kept is in if is_kept (bar i) then bar i ∷ rest else rest

  -- `i` counts the data sets
  unfoldable pub all_bars :
      (ℕ → Bytes → Item num → Bar num) → (Bar num → Bool) → ℕ → List (Dataset num) → List (Bar num)
  unfolding store_bars
  all_bars bar is_kept i [] = []
  all_bars bar is_kept i (d ∷ ds) =
      store_bars (bar i d.name) is_kept d.items ++ all_bars bar is_kept (i + 1) ds

  abbrev upright_bars : Chart num × BarSize → Chart num
  upright_bars (c, size) = record c {
    bars = all_bars (upright_bar c size) is_upright_kept 0 c.data_stores;
  }

  abbrev pub lying_bars : Chart num × BarSize → Chart num
  lying_bars (c, size) = record c {
    bars = all_bars (lying_bar c size) is_lying_kept 0 c.data_stores;
  }

  abbrev upright_chart : Chart num → Option (List ℕ) → Option (Chart num)
  upright_chart c none = none
  upright_chart c (some us) = some (upright_bars (bar_scales (upright_scale c.xrange) us c))

  abbrev pub lying_chart : Chart num → Option (List ℕ) → Option (Chart num)
  lying_chart c none = none
  lying_chart c (some us) = some (lying_bars (bar_scales (lying_scale (x_delta us) c.xrange) us c))

  -- `_evalBarChart`
  unfoldable pub eval_bar_chart : Chart num → Option (Chart num)
  unfolding bar_scales all_bars
  eval_bar_chart c = upright_chart c (unique_indices c.stores)

  -- `_evalHorizBarChart`
  unfoldable pub eval_horiz_bar_chart : Chart num → Option (Chart num)
  unfolding bar_scales all_bars
  eval_horiz_bar_chart c = lying_chart c (unique_indices c.stores)

  abbrev put_tick : Tick num → Option (List (Option (Tick num))) → Option (List (Option (Tick num)))
  put_tick t none = none
  put_tick t (some ts) = some (some t ∷ ts)

  -- `collect` over ticks: one that is undefined is a TypeError
  unfoldable pub moved_ticks :
      (Num → Num) → List (Option (Tick num)) → Option (List (Option (Tick num)))
  moved_ticks move [] = some []
  moved_ticks move (none ∷ ts) = none
  moved_ticks move (some t ∷ ts) = put_tick (record t { pos = move t.pos }) (moved_ticks move ts)

  abbrev swapped :
      Chart num → List (Option (Tick num)) → Option (List (Option (Tick num))) → Option (Chart num)
  swapped c xs none = none
  swapped c xs (some ys) = some (record c { xticks = ys; yticks = xs })

  abbrev turned : Orientation → Chart num → Option (List (Option (Tick num))) → Option (Chart num)
  turned o c none = none
  turned vertical c (some xs) = some (record c { xticks = xs })
  turned horizontal c (some xs) = swapped c xs (moved_ticks (λ p. sub (of_ℕ 1) p) c.yticks)

  -- `(this.minxdelta * this.xscale) / 2`
  abbrev centred : Chart num → Num → Num
  centred c p = add p (div (mul c.minxdelta c.xscale) (of_ℕ 2))

  abbrev bar_ticks : Option (Chart num) → Option (Chart num)
  bar_ticks none = none
  bar_ticks (some c) = turned c.options.bar_orientation c (moved_ticks (centred c) c.xticks)

  -- `_evalBarTicks`
  unfoldable pub eval_bar_ticks : Chart num → Option (Chart num)
  unfolding moved_ticks
  eval_bar_ticks c = bar_ticks (eval_line_ticks num c)

  abbrev then_bar_ticks : Option (Chart num) → Option (Chart num)
  then_bar_ticks none = none
  then_bar_ticks (some c) = eval_bar_ticks c

  abbrev bars_of : Orientation → Chart num → Option (Chart num)
  bars_of vertical c = eval_bar_chart c
  bars_of horizontal c = eval_horiz_bar_chart c

  abbrev then_bars : Option (Chart num) → Option (Chart num)
  then_bars none = none
  then_bars (some c) = then_bar_ticks (bars_of c.options.bar_orientation c)

  -- `_evaluate`
  unfoldable pub evaluate_bar :
      Option (Settings num → Settings num) → Chart num → Option (Chart num)
  evaluate_bar options c = then_bars (eval_chart num bar_chart options c)
