-- ===== src/Plotr/Pie/Draw.antt =====
-- htdocs/plotr/PieChart.js: `_renderPieChart`, `_renderPieAxis` and `render`.
use dbslayer.Prelude.{
  ℕ, ◌+◌, Bool, ◌&&◌, List, [], ◌∷◌, ◌++◌, Bytes, Option, none, some, if◌then◌else◌,
}
use dbslayer.Plotr.Number.{Number}
use dbslayer.Plotr.Settings.{Settings, half}
use dbslayer.Plotr.Chart.{Chart, Slice, Tick, Page, pie_chart}
use dbslayer.Plotr.Canvas.{
  Command, Label, VerticalAlign, Align, align_left, align_right, top_vertical, bottom_vertical,
  save, restore, begin_path, close_path, fill, stroke, set_fill_style, set_stroke_style,
  set_line_width, move_to, line_to, arc, append_label, color_at, each_tick, render_chart,
}
use dbslayer.Plotr.Line.Draw.{path_if}
use dbslayer.Plotr.Pie.{lookup, evaluate_pie}

module _ (num : Number) where
  open num use {Num, of_ℕ, add, sub, mul, div, le, lt, abs, min_of, pi, sin, cos, parse_int}

  -- the centre and the radius
  pub record Circle : Type 0 where
    pub x : Num
    pub y : Num
    pub radius : Num

  abbrev pub circle_of : Chart num → Circle
  circle_of c = record {
    x = add c.area.x (mul c.area.w (half num));
    y = add c.area.y (mul c.area.h (half num));
    radius = min_of (mul c.area.w c.options.pie_radius) (mul c.area.h c.options.pie_radius);
  }

  -- whole pixels for the canvas emulation
  abbrev drawn_circle : Chart num → Circle
  drawn_circle c =
      let o = circle_of c in
      if c.page.is_ie
      then record { x = parse_int o.x; y = parse_int o.y; radius = parse_int o.radius }
      else o

  abbrev quarter : Num
  quarter = div pi (of_ℕ 2)

  abbrev pub draw_pie : Circle → Slice num → List (Command num)
  draw_pie o s =
      begin_path
      ∷ move_to o.x o.y
      ∷ arc o.x o.y o.radius (sub s.start_angle quarter) (sub s.end_angle quarter)
      ∷ line_to o.x o.y
      ∷ close_path
      ∷ []

  -- `Math.abs(startAngle - endAngle) > 0.001`
  abbrev pub is_visible : Slice num → Bool
  is_visible s = lt (div (of_ℕ 1) (of_ℕ 1000)) (abs (sub s.start_angle s.end_angle))

  -- `if (this.options.strokeColor)`: an empty text is false
  abbrev pub stroke_style : Bytes → List (Command num)
  stroke_style [] = []
  stroke_style (b ∷ bs) = set_stroke_style (b ∷ bs) ∷ []

  abbrev pub stroked : Chart num → Circle → Slice num → List (Command num)
  stroked c o s =
      draw_pie o s
      ++ set_line_width c.options.stroke_width
        ∷ (stroke_style c.options.stroke_color ++ stroke ∷ [])

  abbrev pub when_drawn : Bool → List (Command num) → List (Command num)
  when_drawn b cs = if b then cs else []

  abbrev pub slice_commands : Chart num → Circle → ℕ → Slice num → List (Command num)
  slice_commands c o i s =
      save
      ∷ set_fill_style (color_at num c i)
      ∷ (when_drawn (is_visible s) (
            path_if num c.options.should_fill (draw_pie o s) fill
            ++ when_drawn c.options.should_stroke (stroked c o s))
          ++ restore ∷ [])

  unfoldable pub slices_commands : Chart num → Circle → ℕ → List (Slice num) → List (Command num)
  slices_commands c o i [] = []
  slices_commands c o i (s ∷ ss) = slice_commands c o i s ++ slices_commands c o (i + 1) ss

  -- `_renderPieChart`
  unfoldable pub render_pie_chart : Chart num → List (Command num)
  unfolding slices_commands
  render_pie_chart c = slices_commands c (drawn_circle c) 0 c.slices

  -- the angle of the middle of a slice, brought into one turn
  abbrev pub normalised_angle : Slice num → Num
  normalised_angle s =
      let angle = div (add s.start_angle s.end_angle) (of_ℕ 2) in
      let turn = mul pi (of_ℕ 2) in
      if lt turn angle then sub angle turn else if lt angle (of_ℕ 0) then add angle turn else angle

  -- the four quarters: where the label stands
  pub record Place : Type 0 where
    pub text_align : Align
    pub vertical_align : VerticalAlign
    pub left : Num
    pub top : Num

  abbrev place_at : Num → Num → Num → Num → Num → Place
  place_at angle x y width size =
      if le angle (mul pi (half num))
      then record {
        text_align = align_left;
        vertical_align = top_vertical;
        left = x;
        top = sub y size;
      }
      else if lt (mul pi (half num)) angle && le angle pi
      then record { text_align = align_left; vertical_align = bottom_vertical; left = x; top = y }
      else if lt pi angle && le angle (mul pi (div (of_ℕ 3) (of_ℕ 2)))
      then record {
        text_align = align_right;
        vertical_align = bottom_vertical;
        left = sub x width;
        top = y;
      }
      else record {
        text_align = align_right;
        vertical_align = bottom_vertical;
        left = sub x width;
        top = sub y size;
      }

  abbrev label_place : Chart num → Slice num → Place
  label_place c s =
      let o = circle_of c in
      let angle = normalised_angle s in
      let far = add o.radius (of_ℕ 10) in
      place_at angle (add o.x (mul (sin angle) far)) (sub o.y (mul (cos angle) far))
        c.options.axis_label_width c.options.axis_label_font_size

  abbrev pie_label : Chart num → Tick num → Place → Label num
  pie_label c t place = record {
    text = t.label;
    z_index = 11;
    font_size = c.options.axis_label_font_size;
    font_family = c.options.axis_label_font;
    color = c.options.axis_label_color;
    top = place.top;
    left = place.left;
    width = c.options.axis_label_width;
    text_align = place.text_align;
    vertical_align = place.vertical_align;
  }

  -- `if (isNil(slice)) continue`
  abbrev pub tick_commands : Chart num → Tick num → Option (Slice num) → List (Command num)
  tick_commands c t none = []
  tick_commands c t (some s) = append_label (pie_label c t (label_place c s)) ∷ []

  -- `_renderPieAxis`
  unfoldable pub render_pie_axis : Chart num → Option (List (Command num))
  unfolding each_tick
  render_pie_axis c =
      if c.options.draw_x_axis
      then each_tick num (λ t. tick_commands c t (lookup num c.slices t.pos)) c.xticks
      else some []

  -- `render`
  unfoldable pub render_pie :
      Option (Page num)
      → Option (Settings num → Settings num)
      → Chart num
      → Option (List (Command num))
  unfolding render_pie_chart render_pie_axis
  render_pie page options c =
      render_chart num pie_chart (λ d. some (render_pie_chart d)) render_pie_axis page
        (evaluate_pie num options c)
