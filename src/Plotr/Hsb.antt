-- ===== src/Plotr/Hsb.antt =====
-- htdocs/plotr/Base.js: `rgbToHSB` of a color whose components are integers. Its quotients are never
-- close enough to a half for the rounding of a double to matter: they are exact fractions here.
pub mod Bounds
use dbslayer.Prelude.{
  ℕ, ◌+◌, ◌-◌, ◌*◌, ◌/◌, min, max, Bool, true, false, ◌&&◌, leb, ◌==◌, if◌then◌else◌, Bytes,
}
use dbslayer.Plotr.Color.{Rgb, hex_to_rgb}

pub record Hsb : Type 0 where
  pub h : ℕ
  pub s : ℕ
  pub b : ℕ

-- `Math.round(n / d)`: a half is rounded up
abbrev pub round_div : ℕ → ℕ → ℕ
round_div n d = (2 * n + d) / (2 * d)

abbrev pub saturation : ℕ → ℕ → ℕ
saturation most least = if leb most 0 then 0 else round_div (100 * (most - least)) most

-- `Math.round(start + 60 * n / d)`
abbrev pub sector : ℕ → ℕ → ℕ → ℕ
sector start n d = start + round_div (60 * n) d

unfoldable pub hue : ℕ → ℕ → ℕ → ℕ
hue r g b =
    if r == g && g == b
    then 0
    else if leb g r && leb b g
    then sector 0 (g - b) (r - b)
    else if leb r g && leb b r
    then sector 60 (g - r) (g - b)
    else if leb b g && leb r b
    then sector 120 (b - r) (g - r)
    else if leb g b && leb r g
    then sector 180 (b - g) (b - r)
    else if leb r b && leb g r
    then sector 240 (r - g) (b - g)
    else if leb b r && leb g b
    then sector 300 (r - b) (r - g)
    else 0

unfoldable pub rgb_to_hsb : Rgb → Hsb
rgb_to_hsb c =
    let most = max (max c.r c.g) c.b in
    record {
      h = hue c.r c.g c.b;
      s = saturation most (min (min c.r c.g) c.b);
      b = round_div (most * 100) 255;
    }

unfoldable pub hex_to_hsb : Bytes → Hsb
hex_to_hsb hex = rgb_to_hsb (hex_to_rgb hex)
