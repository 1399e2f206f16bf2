-- ===== src/Plotr/Settings.antt =====
-- htdocs/plotr/Canvas.js: `setOptions`, the options of a chart and their defaults. An options object
-- of the caller is the change that `Object.extend` makes to the defaults.
use dbslayer.Prelude.{ℕ, Bool, true, List, Bytes, codes, Option, none}
use dbslayer.Plotr.Number.{Number}

-- an array of colors, or the name or the hexadecimal code that `setColorscheme` expands
pub data ColorScheme : Type 0 where
  colors : List Bytes → ColorScheme
  named : Bytes → ColorScheme

pub data Orientation : Type 0 where
  vertical horizontal : Orientation

module _ (num : Number) where
  open num use {Num, of_ℕ, div}

  -- `{v: value, label: text}`, where the label may be missing
  pub record OptionTick : Type 0 where
    pub v : Num
    pub label : Option Bytes

  pub record Padding : Type 0 where
    pub left : Num
    pub right : Num
    pub top : Num
    pub bottom : Num

  pub record Settings : Type 0 where
    pub sweet_render : Bool
    pub draw_background : Bool
    pub background_line_color : Bytes
    pub background_color : Bytes
    pub padding : Padding
    pub color_scheme : ColorScheme
    pub stroke_color : Bytes
    pub stroke_width : Num
    pub should_fill : Bool
    pub should_stroke : Bool
    pub draw_x_axis : Bool
    pub draw_y_axis : Bool
    pub axis_tick_size : Num
    pub axis_line_color : Bytes
    pub axis_line_width : Num
    pub axis_label_color : Bytes
    pub axis_label_font : Bytes
    pub axis_label_font_size : Num
    pub axis_label_width : Num
    pub bar_width_fill_fraction : Num
    pub bar_orientation : Orientation
    pub x_origin_is_zero : Bool
    pub y_origin_is_zero : Bool
    pub x_axis : Option (Num × Num)
    pub y_axis : Option (Num × Num)
    pub x_ticks : Option (List OptionTick)
    pub y_ticks : Option (List OptionTick)
    pub x_number_of_ticks : ℕ
    pub y_number_of_ticks : ℕ
    pub x_tick_precision : ℕ
    pub y_tick_precision : ℕ
    pub pie_radius : Num

  abbrev pub half : Num
  half = div (of_ℕ 1) (of_ℕ 2)

  -- the defaults, with the color scheme that the number of data sets gives
  abbrev pub default_settings : List Bytes → Settings
  default_settings scheme = record {
    sweet_render = true;
    draw_background = true;
    background_line_color = codes "#ffffff";
    background_color = codes "#f5f5f5";
    padding = record { left = of_ℕ 30; right = of_ℕ 30; top = of_ℕ 5; bottom = of_ℕ 10 };
    color_scheme = colors scheme;
    stroke_color = codes "#ffffff";
    stroke_width = half;
    should_fill = true;
    should_stroke = true;
    draw_x_axis = true;
    draw_y_axis = true;
    axis_tick_size = of_ℕ 3;
    axis_line_color = codes "#000000";
    axis_line_width = half;
    axis_label_color = codes "#666666";
    axis_label_font = codes "Arial";
    axis_label_font_size = of_ℕ 9;
    axis_label_width = of_ℕ 50;
    bar_width_fill_fraction = div (of_ℕ 3) (of_ℕ 4);
    bar_orientation = vertical;
    x_origin_is_zero = true;
    y_origin_is_zero = true;
    x_axis = none;
    y_axis = none;
    x_ticks = none;
    y_ticks = none;
    x_number_of_ticks = 10;
    y_number_of_ticks = 10;
    x_tick_precision = 1;
    y_tick_precision = 1;
    pie_radius = div (of_ℕ 2) (of_ℕ 5);
  }
