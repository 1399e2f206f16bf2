-- ===== src/Plotr/Ticks.antt =====
-- htdocs/plotr/Chart.js: the ticks of the two axes, given by the options or spread evenly.
pub mod Count
use dbslayer.Prelude.{
  ℕ, zero, suc, ◌+◌, Bool, true, false, ◌&&◌, ◌||◌, List, [], ◌∷◌, ◌++◌, Bytes, ltb, ◌==◌, map,
  length, get_or, Option, none, some, if◌then◌else◌,
}
use dbslayer.Plotr.Number.{Number}
use dbslayer.Plotr.Prototype.{max_length, times}
use dbslayer.Plotr.Settings.{Settings, OptionTick}
use dbslayer.Plotr.Chart.{Chart, Item, Tick}

-- `uniqueIndices`; the maximum of no lengths is undefined, which is a TypeError
unfoldable pub unique_indices {ℓ} : {A : Type ℓ} → List (List A) → Option (List ℕ)
unique_indices [] = none
unique_indices (xs ∷ xss) = some (times (max_length (length xs) xss) (λ i. i))

module _ (num : Number) where
  open num use {Num, of_ℕ, nan, add, sub, mul, div, le, lt, to_string, to_fixed, of_text}

  abbrev label_of : Num → Option Bytes → Bytes
  label_of v none = to_string v
  label_of v (some label) = label

  -- `if (pos >= 0.0 && pos <= 1.0) return [pos, label]`, and undefined otherwise
  abbrev tick_at : Num → Bytes → Option (Tick num)
  tick_at pos label =
      if le (of_ℕ 0) pos && le pos (of_ℕ 1)
      then some (record { pos = pos; label = label })
      else none

  abbrev x_tick : Chart num → OptionTick num → Option (Tick num)
  x_tick c t = tick_at (mul c.xscale (sub t.v c.minxval)) (label_of t.v t.label)

  abbrev y_tick : Chart num → OptionTick num → Option (Tick num)
  y_tick c t = tick_at (sub (of_ℕ 1) (mul c.yscale (sub t.v c.minyval))) (label_of t.v t.label)

  -- `pos > 1.0 || pos < 0.0`
  abbrev pub is_outside : Num → Bool
  is_outside pos = lt (of_ℕ 1) pos || lt pos (of_ℕ 0)

  abbrev pub x_pos : Chart num → Num → Num
  x_pos c v = mul c.xscale (sub v c.minxval)

  abbrev x_reached : Chart num → Num → ℕ → Num → Bool
  x_reached c rough count v = le (mul (of_ℕ count) rough) (sub v c.minxval)

  -- behind the pushes of a round: `if (tickCount > this.options.xNumberOfTicks) break`
  abbrev break_or : ℕ → ℕ → List (Option (Tick num)) → List (Option (Tick num))
  break_or wanted count rest = if ltb wanted count then [] else rest

  -- The rounds over `vs`, the elements of `uniqx` and one `undefined` behind them: the ticks that are
  -- pushed from here on, with `count` pushed before.
  unfoldable pub x_ticks_from : Chart num → Num → ℕ → ℕ → List Num → List (Option (Tick num))
  x_ticks_from c rough wanted count [] = []
  x_ticks_from c rough wanted count (v ∷ vs) =
      let skipped = x_ticks_from c rough wanted count vs in
      let pushed = x_ticks_from c rough wanted (count + 1) vs in
      if x_reached c rough count v
      then if is_outside (x_pos c v)
        then skipped
        else some (record { pos = x_pos c v; label = to_string v })
          ∷ break_or wanted (count + 1) pushed
      else break_or wanted count skipped

  abbrev uniq_values : List ℕ → List Num
  uniq_values is = map of_ℕ is ++ nan ∷ []

  abbrev pub even_x_ticks : Chart num → Option (List ℕ) → Option (Chart num)
  even_x_ticks c none = none
  even_x_ticks c (some is) = some (record c {
    xticks =
        x_ticks_from c (div c.xrange (of_ℕ c.options.x_number_of_ticks)) c.options.x_number_of_ticks
          0 (uniq_values is);
  })

  abbrev pub x_ticks_of : Chart num → Option (List (OptionTick num)) → Option (Chart num)
  x_ticks_of c none =
      if c.options.x_number_of_ticks == 0 then some c else even_x_ticks c (unique_indices c.stores)
  x_ticks_of c (some ts) = some (record c { xticks = map (x_tick c) ts })

  -- `_evalLineTicksForXAxis`; `none` is an exception
  unfoldable pub eval_x_ticks : Chart num → Option (Chart num)
  unfolding unique_indices x_ticks_from
  eval_x_ticks c = x_ticks_of c c.options.x_ticks

  -- `toFixed` gives a text, which `i * roughSeparation` reads as a number again
  abbrev pub rough_separation : Chart num → Num
  rough_separation c =
      of_text
        (to_fixed (div c.yrange (of_ℕ c.options.y_number_of_ticks)) c.options.y_tick_precision)

  abbrev pub y_val : Chart num → Num → ℕ → Num
  y_val c rough i = add c.minyval (mul (of_ℕ i) rough)

  abbrev pub y_pos : Chart num → Num → Num
  y_pos c v = sub (of_ℕ 1) (mul (sub v c.minyval) c.yscale)

  -- the rounds from `i` on, `n` of them
  unfoldable pub y_ticks_from : Chart num → Num → ℕ → ℕ → List (Option (Tick num))
  y_ticks_from c rough i zero = []
  y_ticks_from c rough i (suc n) =
      let rest = y_ticks_from c rough (i + 1) n in
      let v = y_val c rough i in
      if is_outside (y_pos c v)
      then rest
      else some (record { pos = y_pos c v; label = to_fixed v c.options.y_tick_precision }) ∷ rest

  abbrev pub y_ticks_of : Chart num → Option (List (OptionTick num)) → Chart num
  y_ticks_of c none = if c.options.y_number_of_ticks == 0 then c else record c {
    yticks = y_ticks_from c (rough_separation c) 0 (suc c.options.y_number_of_ticks);
  }
  y_ticks_of c (some ts) = record c { yticks = map (y_tick c) ts }

  -- `_evalLineTicksForYAxis`
  unfoldable pub eval_y_ticks : Chart num → Chart num
  unfolding y_ticks_from
  eval_y_ticks c = y_ticks_of c c.options.y_ticks

  abbrev then_y_ticks : Option (Chart num) → Option (Chart num)
  then_y_ticks none = none
  then_y_ticks (some c) = some (eval_y_ticks c)

  -- `_evalLineTicks`
  abbrev pub eval_line_ticks : Chart num → Option (Chart num)
  eval_line_ticks c = then_y_ticks (eval_x_ticks c)
