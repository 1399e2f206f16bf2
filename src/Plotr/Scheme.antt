-- ===== src/Plotr/Scheme.antt =====
-- htdocs/plotr/Base.js: the color schemes, from a color to a list of ever brighter ones. The
-- brightness is a fraction, so `hsbToRGB` and `levelHSB` compute with floating-point numbers.
pub mod Size
use dbslayer.Prelude.{
  ℕ, ◌-◌, ◌%◌, Bool, true, false, List, [], ◌∷◌, Bytes, codes, bytes_eq, Option, none, some, ◌==◌,
  if◌then◌else◌,
}
use mathlib.Core.List.{reverse}
use dbslayer.Plotr.Number.{Number}
use dbslayer.Plotr.Prototype.{times}
use dbslayer.Plotr.Color.{Rgb, to_rgb_string}
use dbslayer.Plotr.Hsb.{Hsb, hex_to_hsb}

-- `colorSchemes[color]`
unfoldable pub color_schemes : Bytes → Option Bytes
unfolding bytes_eq
color_schemes name =
    if bytes_eq name (codes "red")
    then some (codes "#6d1d1d")
    else if bytes_eq name (codes "green")
    then some (codes "#3c581a")
    else if bytes_eq name (codes "blue")
    then some (codes "#224565")
    else if bytes_eq name (codes "grey")
    then some (codes "#444444")
    else if bytes_eq name (codes "black")
    then some (codes "#000000")
    else none

-- `size ? size : 3`
abbrev pub size_or_three : ℕ → ℕ
size_or_three size = if size == 0 then 3 else size

module _ (num : Number) where
  open num use {Num, of_ℕ, to_ℕ, add, sub, mul, div, rem, lt, eq, round, min_of}

  -- a color whose components are not yet rounded
  pub record RgbNum : Type 0 where
    pub r : Num
    pub g : Num
    pub b : Num

  abbrev rounded : RgbNum → Rgb
  rounded c = record { r = to_ℕ (round c.r); g = to_ℕ (round c.g); b = to_ℕ (round c.b) }

  -- the six sectors of the hue, with the components `t1`, `t2` and the step `t3`
  unfoldable pub sectors : Num → Num → Num → Num → RgbNum
  sectors h t1 t2 t3 =
      if lt h (of_ℕ 60)
      then record { r = t1; g = add t2 t3; b = t2 }
      else if lt h (of_ℕ 120)
      then record { r = sub t1 t3; g = t1; b = t2 }
      else if lt h (of_ℕ 180)
      then record { r = t2; g = t1; b = add t2 t3 }
      else if lt h (of_ℕ 240)
      then record { r = t2; g = sub t1 t3; b = t1 }
      else if lt h (of_ℕ 300)
      then record { r = add t2 t3; g = t2; b = t1 }
      else if lt h (of_ℕ 360)
      then record { r = t1; g = t2; b = sub t1 t3 }
      else record { r = of_ℕ 0; g = of_ℕ 0; b = of_ℕ 0 }

  -- `hsbToRGB`; hue and saturation are integers, the brightness is a number
  unfoldable pub hsb_to_rgb : ℕ → ℕ → Num → Rgb
  unfolding sectors
  hsb_to_rgb hue saturation brightness =
      let h = round (of_ℕ hue) in
      let s = round (div (mul (of_ℕ saturation) (of_ℕ 255)) (of_ℕ 100)) in
      let v = round (div (mul brightness (of_ℕ 255)) (of_ℕ 100)) in
      let t2 = div (mul (sub (of_ℕ 255) s) v) (of_ℕ 255) in
      let t3 = div (mul (sub v t2) (rem h (of_ℕ 60))) (of_ℕ 60) in
      if eq s (of_ℕ 0)
      then rounded (record { r = v; g = v; b = v })
      else rounded (sectors (if eq h (of_ℕ 360) then of_ℕ 0 else h) v t2 t3)

  unfoldable pub level_hsb : Hsb → Num → Bytes
  unfolding hsb_to_rgb
  level_hsb c level = to_rgb_string (hsb_to_rgb c.h c.s (min_of (add (of_ℕ c.b) level) (of_ℕ 100)))

  abbrev reversed_if : Bool → List Bytes → List Bytes
  reversed_if t result = if t then reverse result else result

  unfoldable pub generate_colorscheme : Bytes → ℕ → Bool → List Bytes
  unfolding level_hsb
  generate_colorscheme hex size is_reversed =
      let c = hex_to_hsb hex in
      let level = div (sub (of_ℕ 100) (of_ℕ c.b)) (of_ℕ size) in
      reversed_if is_reversed (times size (λ index. level_hsb c (mul level (of_ℕ index))))

  abbrev pub default_scheme : ℕ → List Bytes
  default_scheme size = generate_colorscheme (codes "#3c581a") size false

  abbrev pub expand : Bytes → Option Bytes → ℕ → List Bytes
  expand color none size = generate_colorscheme color (size_or_three size) false
  expand color (some scheme) size = generate_colorscheme scheme (size_or_three size) false

  unfoldable pub get_colorscheme : Bytes → ℕ → List Bytes
  get_colorscheme color size = expand color (color_schemes color) size
