-- ===== src/Plotr/Line/Balance.antt =====
-- The drawing of a line chart leaves the canvas as it was.
use dbslayer.Prelude.{
  ℕ, ◌+◌, refl, Bool, true, false, List, [], ◌∷◌, Bytes, bytes_eq, if◌then◌else◌,
}
use dbslayer.Plotr.Number.{Number}
use dbslayer.Plotr.Chart.{Chart, Point}
use dbslayer.Plotr.Canvas.{Command, line_to, close_path, fill, stroke}
use dbslayer.Plotr.Canvas.Balance.{Balanced, Balanced-append, Balanced-nil, both_lem, depth_after}
use dbslayer.Plotr.Line.Draw.{
  lines_to, prepare_path, path_if, set_commands, each_set, store_names, render_line_chart,
}

module _ (num : Number) where
  keep_lem :
      (b : Bool) (x y : num.Num) (cs : List (Command num))
      → Balanced num cs
      → Balanced num (if b then line_to x y ∷ cs else cs)
  unfolding Balanced depth_after
  keep_lem true x y cs h rest d = h rest d
  keep_lem false x y cs h rest d = h rest d

  lines_to-Balanced :
      (c : Chart num) (name : Bytes) (ps : List (Point num)) → Balanced num (lines_to num c name ps)
  unfolding lines_to
  lines_to-Balanced c name [] = Balanced-nil num
  lines_to-Balanced c name (p ∷ ps) =
      keep_lem (bytes_eq p.name name) _ _ _ (lines_to-Balanced c name ps)

  prepare_path-Balanced : (c : Chart num) (name : Bytes) → Balanced num (prepare_path num c name)
  unfolding Balanced depth_after
  prepare_path-Balanced c name rest d =
      Balanced-append num (lines_to num c name c.points)
        (line_to _ _ ∷ line_to _ _ ∷ close_path ∷ []) (lines_to-Balanced c name c.points)
        (λ rest d. refl) rest d

  pub path_if-Balanced :
      (b : Bool) (path : List (Command num)) (last : Command num)
      → Balanced num path
      → Balanced num (last ∷ [])
      → Balanced num (path_if num b path last)
  path_if-Balanced true path last h k = Balanced-append num path (last ∷ []) h k
  path_if-Balanced false path last h k = Balanced-nil num

  set_commands-Balanced :
      (c : Chart num) (index : ℕ) (name : Bytes) → Balanced num (set_commands num c index name)
  unfolding Balanced depth_after
  set_commands-Balanced c index name rest d =
      both_lem num (path_if num c.options.should_fill (prepare_path num c name) fill)
        (path_if num c.options.should_stroke (prepare_path num c name) stroke)
        (path_if-Balanced c.options.should_fill (prepare_path num c name) fill
          (prepare_path-Balanced c name) (λ rest d. refl))
        (path_if-Balanced c.options.should_stroke (prepare_path num c name) stroke
          (prepare_path-Balanced c name) (λ rest d. refl))
        rest d

  each_set-Balanced :
      (draw : ℕ → Bytes → List (Command num)) (index : ℕ) (names : List Bytes)
      → ((i : ℕ) (name : Bytes) → Balanced num (draw i name))
      → Balanced num (each_set num draw index names)
  unfolding each_set
  each_set-Balanced draw index [] h = Balanced-nil num
  each_set-Balanced draw index (n ∷ ns) h =
      Balanced-append num (draw index n) _ (h index n) (each_set-Balanced draw (index + 1) ns h)

  -- Every `save` among the commands that draw a line chart has its `restore`, whatever the options,
  -- the points and the functions that the loop over the data sets meets.
  pub render_line_chart-Balanced :
      (inherited : List Bytes) (c : Chart num) → Balanced num (render_line_chart num inherited c)
  unfolding render_line_chart
  render_line_chart-Balanced inherited c =
      each_set-Balanced (set_commands num c) 0 (store_names num inherited c)
        (set_commands-Balanced c)
