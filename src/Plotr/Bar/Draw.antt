-- ===== src/Plotr/Bar/Draw.antt =====
-- htdocs/plotr/BarChart.js: `_renderBarChart` and `render`.
use dbslayer.Prelude.{
  ℕ, Bool, ◌||◌, List, [], ◌∷◌, ◌++◌, Bytes, bytes_eq, Option, some, if◌then◌else◌,
}
use dbslayer.Plotr.Number.{Number}
use dbslayer.Plotr.Settings.{Settings}
use dbslayer.Plotr.Chart.{Chart, Bar, Page, bar_chart}
use dbslayer.Plotr.Canvas.{
  Command, save, restore, set_fill_style, set_stroke_style, set_line_width, fill_rect, stroke_rect,
  color_at, render_chart, render_axis,
}
use dbslayer.Plotr.Line.Draw.{each_set, store_names}
use dbslayer.Plotr.Bar.{evaluate_bar}

module _ (num : Number) where
  open num use {Num, of_ℕ, add, mul, lt}

  -- `(w < 1) || (h < 1)`
  abbrev pub is_thin : Chart num → Bar num → Bool
  is_thin c b = lt (mul c.area.w b.w) (of_ℕ 1) || lt (mul c.area.h b.h) (of_ℕ 1)

  abbrev pub bar_start : Chart num → ℕ → List (Command num)
  bar_start c index =
      save
      ∷ set_line_width c.options.stroke_width
      ∷ set_fill_style (color_at num c index)
      ∷ set_stroke_style c.options.stroke_color
      ∷ []

  abbrev pub rect_if : Bool → Command num → List (Command num)
  rect_if b command = if b then command ∷ [] else []

  -- what follows when the bar is not thin
  abbrev pub bar_rects : Chart num → Bar num → List (Command num)
  bar_rects c b =
      let x = add (mul c.area.w b.x) c.area.x in
      let y = add (mul c.area.h b.y) c.area.y in
      let w = mul c.area.w b.w in
      let h = mul c.area.h b.h in
      rect_if c.options.should_fill (fill_rect x y w h)
      ++ rect_if c.options.should_stroke (stroke_rect x y w h)
      ++ restore ∷ []

  -- `drawBar` behind its first line; a thin bar returns between `save` and `restore`
  abbrev pub bar_commands : Chart num → ℕ → Bar num → List (Command num)
  bar_commands c index b = bar_start c index ++ (if is_thin c b then [] else bar_rects c b)

  -- `this.bars.each(drawBar)` for the set `name`
  unfoldable pub set_bars : Chart num → ℕ → Bytes → List (Bar num) → List (Command num)
  set_bars c index name [] = []
  set_bars c index name (b ∷ bs) =
      let rest = set_bars c index name bs in
      if bytes_eq b.name name then bar_commands c index b ++ rest else rest

  -- `_renderBarChart`
  unfoldable pub render_bar_chart : List Bytes → Chart num → List (Command num)
  unfolding set_bars each_set
  render_bar_chart inherited c =
      each_set num (λ index name. set_bars c index name c.bars) 0 (store_names num inherited c)

  -- `render`
  unfoldable pub render_bar :
      List Bytes
      → Option (Page num)
      → Option (Settings num → Settings num)
      → Chart num
      → Option (List (Command num))
  unfolding render_bar_chart
  render_bar inherited page options c =
      render_chart num bar_chart (λ d. some (render_bar_chart inherited d)) (render_axis num) page
        (evaluate_bar num options c)
