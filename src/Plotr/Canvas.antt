-- ===== src/Plotr/Canvas.antt =====
-- htdocs/plotr/Canvas.js: the drawing of background and axes, as the commands that the canvas and the
-- container of the labels receive, in their order. `none` is an exception.
pub mod Balance
use dbslayer.Prelude.{
  ℕ, zero, suc, ◌+◌, ◌%◌, Bool, true, false, not, ◌&&◌, List, [], ◌∷◌, ◌++◌, Bytes, length,
  get_elem?, Option, none, some, if◌then◌else◌,
}
use dbslayer.Plotr.Number.{Number}
use dbslayer.Plotr.Settings.{
  Settings, ColorScheme, colors, named, Orientation, vertical, horizontal,
}
use dbslayer.Plotr.Chart.{
  Chart, ChartType, line_chart, bar_chart, pie_chart, Tick, Page, init_canvas,
}

pub data Align : Type 0 where
  align_left align_right align_center : Align

pub data VerticalAlign : Type 0 where
  no_vertical top_vertical bottom_vertical : VerticalAlign

module _ (num : Number) where
  open num use {Num, of_ℕ, add, sub, mul, div}

  -- a `div` with the style that it is given
  pub record Label : Type 0 where
    pub text : Bytes
    pub z_index : ℕ
    pub font_size : Num
    pub font_family : Bytes
    pub color : Bytes
    pub top : Num
    pub left : Num
    pub width : Num
    pub text_align : Align
    pub vertical_align : VerticalAlign

  pub data Command : Type 0 where
    save restore begin_path close_path fill stroke : Command
    set_fill_style : Option Bytes → Command
    set_stroke_style : Bytes → Command
    set_line_width : Num → Command
    move_to line_to : Num → Num → Command
    fill_rect stroke_rect : Num → Num → Num → Num → Command
    arc : Num → Num → Num → Num → Num → Command
    append_label : Label → Command

  -- `colorScheme[index % colorScheme.length]`, which is undefined for an empty array; a name was
  -- expanded by `setColorscheme`
  abbrev pub palette : ColorScheme → List Bytes
  palette (colors cs) = cs
  palette (named name) = []

  abbrev pub color_at : Chart num → ℕ → Option Bytes
  color_at c i = let cs = palette c.options.color_scheme in get_elem? cs (i % length cs)

  -- the five calls that draw one line
  abbrev pub segment : Num → Num → Num → Num → List Command
  segment x1 y1 x2 y2 = begin_path ∷ move_to x1 y1 ∷ line_to x2 y2 ∷ close_path ∷ stroke ∷ []

  abbrev pub background_line : Chart num → Bool → Num → List Command
  background_line c horiz pos =
      let across = add (mul pos c.area.w) c.area.x in
      let down = add (mul pos c.area.h) c.area.y in
      if horiz
      then segment across c.area.y across (add c.area.y c.area.h)
      else segment c.area.x down (add c.area.x c.area.w) down

  abbrev pub before : List Command → Option (List Command) → Option (List Command)
  before cs none = none
  before cs (some ds) = some (cs ++ ds)

  -- `each` or `collect` over ticks; reading `tick[0]` of one that is undefined is a TypeError
  unfoldable pub each_tick :
      (Tick num → List Command) → List (Option (Tick num)) → Option (List Command)
  each_tick draw [] = some []
  each_tick draw (none ∷ ts) = none
  each_tick draw (some t ∷ ts) = before (draw t) (each_tick draw ts)

  -- `this.type == 'bar' && this.options.barOrientation == 'horizontal'`
  abbrev pub is_horizontal : ChartType → Orientation → Bool
  is_horizontal bar_chart horizontal = true
  is_horizontal bar_chart vertical = false
  is_horizontal line_chart o = false
  is_horizontal pie_chart o = false

  abbrev pub framed : List Command → Option (List Command) → Option (List Command)
  framed start none = none
  framed start (some cs) = some (start ++ cs ++ restore ∷ [])

  abbrev pub sweet_start : Chart num → List Command
  sweet_start c =
      save
      ∷ set_fill_style (some c.options.background_color)
      ∷ fill_rect c.area.x c.area.y c.area.w c.area.h
      ∷ set_stroke_style c.options.background_line_color
      ∷ set_line_width (of_ℕ 1)
      ∷ []

  abbrev plain_background : Chart num → List Command
  plain_background c =
      save
      ∷ set_fill_style (some c.options.background_color)
      ∷ fill_rect (of_ℕ 0) (of_ℕ 0) c.page.width c.page.height
      ∷ restore
      ∷ []

  abbrev pub sweet_background : Chart num → Bool → Option (List Command)
  sweet_background c horiz =
      framed (sweet_start c)
        (each_tick (λ t. background_line c horiz t.pos) (if horiz then c.xticks else c.yticks))

  -- `_renderBackground`
  unfoldable pub render_background : ChartType → Chart num → Option (List Command)
  unfolding each_tick
  render_background t c =
      if c.options.sweet_render
      then sweet_background c (is_horizontal t c.options.bar_orientation)
      else some (plain_background c)

  abbrev y_label : Chart num → Tick num → Num → Label
  y_label c t y =
      let o = c.options in
      record {
        text = t.label;
        z_index = 10;
        font_size = o.axis_label_font_size;
        font_family = o.axis_label_font;
        color = o.axis_label_color;
        top = sub y o.axis_label_font_size;
        left = sub (sub c.area.x o.padding.left) o.axis_tick_size;
        width = sub o.padding.left (mul o.axis_tick_size (of_ℕ 2));
        text_align = align_right;
        vertical_align = no_vertical;
      }

  abbrev pub y_tick_commands : Chart num → Tick num → List Command
  y_tick_commands c t =
      let y = add c.area.y (mul t.pos c.area.h) in
      segment c.area.x y (sub c.area.x c.options.axis_tick_size) y
      ++ append_label (y_label c t y) ∷ []

  abbrev x_label : Chart num → Tick num → Num → Num → Label
  x_label c t x y =
      let o = c.options in
      record {
        text = t.label;
        z_index = 10;
        font_size = o.axis_label_font_size;
        font_family = o.axis_label_font;
        color = o.axis_label_color;
        top = add y o.axis_tick_size;
        left = sub x (div o.axis_label_width (of_ℕ 2));
        width = o.axis_label_width;
        text_align = align_center;
        vertical_align = no_vertical;
      }

  abbrev pub x_tick_commands : Chart num → Tick num → List Command
  x_tick_commands c t =
      let x = add c.area.x (mul t.pos c.area.w) in
      let y = add c.area.y c.area.h in
      segment x y x (add y c.options.axis_tick_size) ++ append_label (x_label c t x y) ∷ []

  abbrev pub and_then : Option (List Command) → Option (List Command) → Option (List Command)
  and_then none ds = none
  and_then (some cs) ds = before cs ds

  -- the ticks with their labels, and the axis behind them
  abbrev y_axis_commands : Chart num → Option (List Command)
  y_axis_commands c =
      and_then (each_tick (y_tick_commands c) c.yticks)
        (some (segment c.area.x c.area.y c.area.x (add c.area.y c.area.h)))

  abbrev x_axis_commands : Chart num → Option (List Command)
  x_axis_commands c =
      let y = add c.area.y c.area.h in
      and_then (each_tick (x_tick_commands c) c.xticks)
        (some (segment c.area.x y (add c.area.x c.area.w) y))

  abbrev pub when : Bool → Option (List Command) → Option (List Command)
  when b cs = if b then cs else some []

  abbrev pub axis_start : Chart num → List Command
  axis_start c =
      save
      ∷ set_stroke_style c.options.axis_line_color
      ∷ set_line_width c.options.axis_line_width
      ∷ []

  -- `_renderAxis`; the early return is `drawXAxis` and `drawYAxis` both off
  unfoldable pub render_axis : Chart num → Option (List Command)
  unfolding each_tick
  render_axis c =
      if not c.options.draw_x_axis && not c.options.draw_y_axis
      then some []
      else framed (axis_start c) (
          and_then (when c.options.draw_y_axis (y_axis_commands c))
            (when c.options.draw_x_axis (x_axis_commands c)))

  abbrev moved : Option (Page num) → Chart num → Option (Chart num)
  moved none c = some c
  moved (some page) c = init_canvas num page c

  abbrev draw_background : ChartType → Chart num → Option (List Command)
  draw_background t c = when c.options.draw_background (render_background t c)

  abbrev with_chart : Chart num → Option (List Command) → Option (Chart num × List Command)
  with_chart c none = none
  with_chart c (some cs) = some (c, cs)

  abbrev then_background : ChartType → Option (Chart num) → Option (Chart num × List Command)
  then_background t none = none
  then_background t (some c) = with_chart c (draw_background t c)

  -- `_render`: another canvas element may be given
  unfoldable pub render_canvas :
      ChartType → Option (Page num) → Chart num → Option (Chart num × List Command)
  unfolding render_background
  render_canvas t page c = then_background t (moved page c)

  abbrev draw_all :
      (Chart num → Option (List Command))
      → (Chart num → Option (List Command))
      → Option (Chart num × List Command)
      → Option (List Command)
  draw_all draw axis none = none
  draw_all draw axis (some (c, cs)) = before cs (and_then (draw c) (axis c))

  -- `render` behind `_evaluate`, with the drawing and the axes of a kind of chart, for a browser with a
  -- canvas of its own
  unfoldable pub render_chart :
      ChartType
      → (Chart num → Option (List Command))
      → (Chart num → Option (List Command))
      → Option (Page num)
      → Option (Chart num)
      → Option (List Command)
  unfolding render_canvas
  render_chart t draw axis page none = none
  render_chart t draw axis page (some c) = draw_all draw axis (render_canvas t page c)
