-- ===== src/Plotr/Chart.antt =====
-- htdocs/plotr/Chart.js: the state of a chart, its constructor, its data sets and the ranges of its
-- axes. A field that is null until `_evalXY` is 0 here, as null counts in arithmetic.
pub mod Shown
pub mod Sets
pub mod Range
use dbslayer.Prelude.{
  ℕ, ◌+◌, max, Bool, true, false, not, ◌&&◌, ◌||◌, List, [], ◌∷◌, Bytes, bytes_eq, map, length,
  Option, none, some, if◌then◌else◌,
}
use dbslayer.Plotr.Number.{Number}
use dbslayer.Plotr.Prototype.{flatten, max_from, min_from}
use dbslayer.Plotr.Settings.{Settings, ColorScheme, colors, named, default_settings}
use dbslayer.Plotr.Scheme.{default_scheme, get_colorscheme}

pub data ChartType : Type 0 where
  line_chart bar_chart pie_chart : ChartType

module _ (num : Number) where
  open num use {Num, of_ℕ, nan, sub, div, eq, parse_float}

  -- `[x, y]`
  pub record Item : Type 0 where
    pub x_value : Num
    pub y_value : Num

  -- a property of `dataStores` and its name
  pub record Dataset : Type 0 where
    pub name : Bytes
    pub items : List Item

  pub record Area : Type 0 where
    pub x : Num
    pub y : Num
    pub w : Num
    pub h : Num

  -- `[position, label]`
  pub record Tick : Type 0 where
    pub pos : Num
    pub label : Bytes

  pub record Point : Type 0 where
    pub x : Num
    pub y : Num
    pub xval : Num
    pub yval : Num
    pub name : Bytes

  pub record Bar : Type 0 where
    pub x : Num
    pub y : Num
    pub w : Num
    pub h : Num
    pub xval : Num
    pub yval : Num
    pub name : Bytes

  pub record Slice : Type 0 where
    pub fraction : Num
    pub xval : Num
    pub yval : Num
    pub start_angle : Num
    pub end_angle : Num

  -- What `_initCanvas` finds in the page. The VML canvas of old browsers is left out.
  pub record Page : Type 0 where
    pub has_canvas : Bool
    pub is_in_div : Bool
    pub is_ie : Bool
    pub is_supported : Bool
    pub width : Num
    pub height : Num

  pub record Chart : Type 0 where
    pub options : Settings num
    -- `canvasNode`, `containerNode` and `isIE`
    pub page : Page
    pub area : Area
    pub sets : ℕ
    pub data_stores : List Dataset
    pub stores : List (List Item)
    pub minxval : Num
    pub maxxval : Num
    pub xrange : Num
    pub xscale : Num
    pub minyval : Num
    pub maxyval : Num
    pub yrange : Num
    pub yscale : Num
    pub minxdelta : Num
    -- a tick out of range leaves `undefined`
    pub xticks : List (Option Tick)
    pub yticks : List (Option Tick)
    pub points : List Point
    pub bars : List Bar
    pub slices : List Slice

  -- `defaultScheme(Math.max(this.sets, 3))`; the maximum is NaN while `sets` is undefined, and then
  -- `times` makes no round.
  abbrev pub initial_scheme : Option ℕ → List Bytes
  initial_scheme none = []
  initial_scheme (some sets) = default_scheme num (max sets 3)

  -- `Object.extend(defaults, options)`
  abbrev pub extended : Option ℕ → (Settings num → Settings num) → Settings num
  extended sets options = options (default_settings num (initial_scheme sets))

  abbrev pub set_options : (Settings num → Settings num) → Chart → Chart
  set_options options c = record c { options = extended (some c.sets) options }

  abbrev pub area_of : Settings num → Page → Area
  area_of s page = record {
    x = s.padding.left;
    y = s.padding.top;
    w = sub (sub page.width s.padding.left) s.padding.right;
    h = sub (sub page.height s.padding.top) s.padding.bottom;
  }

  -- `none` is an exception.
  unfoldable pub init_canvas : Page → Chart → Option Chart
  init_canvas page c =
      if page.has_canvas && page.is_in_div && (page.is_ie || page.is_supported)
      then some (record c { page = page; area = area_of c.options page })
      else none

  abbrev axis_min : Option (Num × Num) → Num
  axis_min none = of_ℕ 0
  axis_min (some (low, high)) = low

  abbrev axis_max : Option (Num × Num) → Num
  axis_max none = of_ℕ 0
  axis_max (some (low, high)) = high

  abbrev axis_scale : Option (Num × Num) → Num
  axis_scale none = of_ℕ 0
  axis_scale (some (low, high)) = sub high low

  abbrev pub initial : Settings num → Page → Chart
  initial s page = record {
    options = s;
    page = page;
    area = area_of s page;
    sets = 0;
    data_stores = [];
    stores = [];
    minxval = axis_min s.x_axis;
    maxxval = axis_max s.x_axis;
    xrange = of_ℕ 1;
    xscale = axis_scale s.x_axis;
    minyval = axis_min s.y_axis;
    maxyval = axis_max s.y_axis;
    yrange = of_ℕ 1;
    yscale = axis_scale s.y_axis;
    minxdelta = of_ℕ 0;
    xticks = [];
    yticks = [];
    points = [];
    bars = [];
    slices = [];
  }

  -- `setOptions` runs in front of `this.sets = 0`.
  unfoldable pub initialize : Page → (Settings num → Settings num) → Option Chart
  initialize page options = init_canvas page (initial (extended none options) page)

  unfoldable pub reset : Chart → Chart
  reset c = record (set_options (λ s. s) c) { data_stores = [] }

  -- `this.dataStores[name] = store[name]`
  unfoldable pub put : Dataset → List Dataset → List Dataset
  put d [] = d ∷ []
  put d (e ∷ es) = if bytes_eq e.name d.name then d ∷ es else e ∷ put d es

  unfoldable pub add_dataset : List Dataset → Chart → Chart
  unfolding put
  add_dataset [] c = c
  add_dataset (d ∷ ds) c =
      add_dataset ds (record c { data_stores = put d c.data_stores; sets = c.sets + 1 })

  -- `Plotr.Base.items`: the functions among the properties are left out, and the data sets are not
  -- functions.
  abbrev pub items_of : List Dataset → List (List Item)
  items_of ds = map (λ d. d.items) ds

  abbrev pub x_data : List (List Item) → List Num
  x_data stores = flatten (map (map (λ i. i.x_value)) stores)

  abbrev pub y_data : List (List Item) → List Num
  y_data stores = flatten (map (map (λ i. i.y_value)) stores)

  -- `parseFloat` of a minimum or maximum, which an empty list has not
  abbrev pub parse_extreme : Option Num → Num
  parse_extreme none = nan
  parse_extreme (some v) = parse_float v

  abbrev pub axis_low : Option (Num × Num) → Bool → List Num → Num
  axis_low none is_zero values =
      if is_zero then of_ℕ 0 else parse_extreme (min_from num none values)
  axis_low (some (low, high)) is_zero values = low

  abbrev pub axis_high : Option (Num × Num) → List Num → Num
  axis_high none values = parse_extreme (max_from num none values)
  axis_high (some (low, high)) values = high

  abbrev pub scale_of : Num → Num
  scale_of range = if eq range (of_ℕ 0) then of_ℕ 1 else div (of_ℕ 1) range

  unfoldable pub eval_xy : Chart → Chart
  eval_xy c =
      let xlow = axis_low c.options.x_axis c.options.x_origin_is_zero (x_data c.stores) in
      let xhigh = axis_high c.options.x_axis (x_data c.stores) in
      let ylow = axis_low c.options.y_axis c.options.y_origin_is_zero (y_data c.stores) in
      let yhigh = axis_high c.options.y_axis (y_data c.stores) in
      record c {
        minxval = xlow;
        maxxval = xhigh;
        xrange = sub xhigh xlow;
        xscale = scale_of (sub xhigh xlow);
        minyval = ylow;
        maxyval = yhigh;
        yrange = sub yhigh ylow;
        yscale = scale_of (sub yhigh ylow);
      }

  abbrev first_size : List (List Item) → Option ℕ
  first_size [] = none
  first_size (s ∷ ss) = some (max (length s) 3)

  -- the number of colors that a named scheme is expanded to; a pie without data is a TypeError
  abbrev scheme_size : ChartType → Chart → Option ℕ
  scheme_size line_chart c = some (max c.sets 3)
  scheme_size bar_chart c = some (max c.sets 3)
  scheme_size pie_chart c = first_size c.stores

  abbrev with_scheme : Chart → Bytes → Option ℕ → Option Chart
  with_scheme c name none = none
  with_scheme c name (some size) = some (record c {
    options = record c.options { color_scheme = colors (get_colorscheme num name size) };
  })

  abbrev expand_scheme : ChartType → Chart → ColorScheme → Option Chart
  expand_scheme t c (colors cs) = some c
  expand_scheme t c (named name) = with_scheme c name (scheme_size t c)

  unfoldable pub set_colorscheme : ChartType → Chart → Option Chart
  set_colorscheme t c = expand_scheme t c c.options.color_scheme

  abbrev with_options : Option (Settings num → Settings num) → Chart → Chart
  with_options none c = c
  with_options (some options) c = set_options options c

  abbrev with_stores : Chart → Chart
  with_stores c = record c { stores = items_of c.data_stores }

  -- `_eval`
  unfoldable pub eval_chart :
      ChartType → Option (Settings num → Settings num) → Chart → Option Chart
  unfolding eval_xy set_colorscheme
  eval_chart t options c = set_colorscheme t (eval_xy (with_stores (with_options options c)))
