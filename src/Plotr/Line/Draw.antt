-- ===== src/Plotr/Line/Draw.antt =====
-- htdocs/plotr/LineChart.js: `_renderLineChart` and `render`.
use dbslayer.Prelude.{
  ℕ, ◌+◌, Bool, List, [], ◌∷◌, ◌++◌, Bytes, bytes_eq, map, Option, some, if◌then◌else◌,
}
use dbslayer.Plotr.Number.{Number}
use dbslayer.Plotr.Settings.{Settings}
use dbslayer.Plotr.Chart.{Chart, Point, Page, line_chart}
use dbslayer.Plotr.Canvas.{
  Command, save, restore, begin_path, close_path, fill, stroke, set_fill_style, set_stroke_style,
  set_line_width, move_to, line_to, color_at, render_chart, render_axis,
}
use dbslayer.Plotr.Line.{evaluate_line}

module _ (num : Number) where
  open num use {Num, add, mul}

  -- The points of the set `name`. The functions that the loop over `points` meets as well have no
  -- coordinates, and the canvas ignores a line to NaN.
  unfoldable pub lines_to : Chart num → Bytes → List (Point num) → List (Command num)
  lines_to c name [] = []
  lines_to c name (p ∷ ps) =
      let rest = lines_to c name ps in
      if bytes_eq p.name name
      then line_to (add (mul c.area.w p.x) c.area.x) (add (mul c.area.h p.y) c.area.y) ∷ rest
      else rest

  -- `preparePath`: from the lower left corner through the points and back along the lower edge
  abbrev pub prepare_path : Chart num → Bytes → List (Command num)
  prepare_path c name =
      let bottom = add c.area.y c.area.h in
      begin_path
      ∷ move_to c.area.x bottom
      ∷ (lines_to c name c.points
          ++ line_to (add c.area.w c.area.x) (add c.area.h c.area.y)
            ∷ line_to c.area.x bottom
            ∷ close_path
            ∷ [])

  abbrev pub path_if : Bool → List (Command num) → Command num → List (Command num)
  path_if b path last = if b then path ++ last ∷ [] else []

  abbrev pub set_commands : Chart num → ℕ → Bytes → List (Command num)
  set_commands c index name =
      save
      ∷ set_line_width c.options.stroke_width
      ∷ set_fill_style (color_at num c index)
      ∷ set_stroke_style c.options.stroke_color
      ∷ (path_if c.options.should_fill (prepare_path c name) fill
          ++ path_if c.options.should_stroke (prepare_path c name) stroke
          ++ restore ∷ [])

  unfoldable pub each_set : (ℕ → Bytes → List (Command num)) → ℕ → List Bytes → List (Command num)
  each_set draw index [] = []
  each_set draw index (n ∷ ns) = draw index n ++ each_set draw (index + 1) ns

  -- The names that `for (var storeName in this.dataStores)` meets: the data sets, and then the
  -- functions `inherited` that prototype.js adds to every array.
  abbrev pub store_names : List Bytes → Chart num → List Bytes
  store_names inherited c = map (λ d. d.name) c.data_stores ++ inherited

  -- `_renderLineChart`
  unfoldable pub render_line_chart : List Bytes → Chart num → List (Command num)
  unfolding lines_to each_set
  render_line_chart inherited c = each_set (set_commands c) 0 (store_names inherited c)

  -- `render`
  unfoldable pub render_line :
      List Bytes
      → Option (Page num)
      → Option (Settings num → Settings num)
      → Chart num
      → Option (List (Command num))
  unfolding render_line_chart
  render_line inherited page options c =
      render_chart num line_chart (λ d. some (render_line_chart inherited d)) (render_axis num) page
        (evaluate_line num options c)
