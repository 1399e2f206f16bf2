-- ===== src/Plotr/Pie/Balance.antt =====
-- The drawing of a pie leaves the canvas as it was.
use dbslayer.Prelude.{ℕ, ◌+◌, refl, Bool, true, false, List, [], ◌∷◌, ◌++◌, Bytes}
use dbslayer.Plotr.Number.{Number}
use dbslayer.Plotr.Chart.{Chart, Slice}
use dbslayer.Plotr.Canvas.{Command, fill, stroke}
use dbslayer.Plotr.Canvas.Balance.{Balanced, Balanced-append, Balanced-nil, start_lem, depth_after}
use dbslayer.Plotr.Line.Draw.{path_if}
use dbslayer.Plotr.Line.Balance.{path_if-Balanced}
use dbslayer.Plotr.Pie.Draw.{
  Circle, draw_pie, stroke_style, stroked, when_drawn, is_visible, slice_commands, slices_commands,
  render_pie_chart,
}

module _ (num : Number) where
  when_drawn-Balanced :
      (b : Bool) (cs : List (Command num)) → Balanced num cs → Balanced num (when_drawn num b cs)
  when_drawn-Balanced true cs h = h
  when_drawn-Balanced false cs h = Balanced-nil num

  stroke_lem : (style : Bytes) → Balanced num (stroke_style num style ++ stroke ∷ [])
  unfolding Balanced depth_after
  stroke_lem [] rest d = refl
  stroke_lem (b ∷ bs) rest d = refl

  stroked-Balanced :
      (c : Chart num) (o : Circle num) (s : Slice num) → Balanced num (stroked num c o s)
  unfolding Balanced depth_after
  stroked-Balanced c o s rest d = stroke_lem c.options.stroke_color rest d

  -- what is drawn of a slice between `save` and `restore`
  abbrev drawn : Chart num → Circle num → Slice num → List (Command num)
  drawn c o s = when_drawn num (is_visible num s) (
      path_if num c.options.should_fill (draw_pie num o s) fill
      ++ when_drawn num c.options.should_stroke (stroked num c o s))

  drawn_lem : (c : Chart num) (o : Circle num) (s : Slice num) → Balanced num (drawn c o s)
  unfolding Balanced depth_after
  drawn_lem c o s =
      let filled = path_if num c.options.should_fill (draw_pie num o s) fill in
      let outlined = when_drawn num c.options.should_stroke (stroked num c o s) in
      when_drawn-Balanced (is_visible num s) (filled ++ outlined) (
        Balanced-append num filled outlined
          (path_if-Balanced num c.options.should_fill (draw_pie num o s) fill (λ rest d. refl)
            (λ rest d. refl))
          (when_drawn-Balanced c.options.should_stroke (stroked num c o s)
            (stroked-Balanced c o s)))

  slice_commands-Balanced :
      (c : Chart num) (o : Circle num) (i : ℕ) (s : Slice num)
      → Balanced num (slice_commands num c o i s)
  unfolding Balanced depth_after
  slice_commands-Balanced c o i s rest d = start_lem num (drawn c o s) (drawn_lem c o s) rest d

  slices_commands-Balanced :
      (c : Chart num) (o : Circle num) (i : ℕ) (ss : List (Slice num))
      → Balanced num (slices_commands num c o i ss)
  unfolding slices_commands
  slices_commands-Balanced c o i [] = Balanced-nil num
  slices_commands-Balanced c o i (s ∷ ss) =
      Balanced-append num (slice_commands num c o i s) _ (slice_commands-Balanced c o i s)
        (slices_commands-Balanced c o (i + 1) ss)

  -- Every `save` among the commands that draw a pie has its `restore`, whatever the options and the
  -- slices.
  pub render_pie_chart-Balanced : (c : Chart num) → Balanced num (render_pie_chart num c)
  unfolding render_pie_chart
  render_pie_chart-Balanced c = slices_commands-Balanced c _ 0 c.slices
