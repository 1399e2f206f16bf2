-- ===== src/Plotr/Color.antt =====
-- htdocs/plotr/Base.js: colors as text and as red, green and blue.
pub mod RoundTrip
use dbslayer.Prelude.{
  hex_value, ℕ, ◌+◌, ◌-◌, ◌*◌, ◌/◌, ◌%◌, ◌^◌, Bool, true, false, ◌&&◌, ◌||◌, List, [], ◌∷◌, ◌++◌,
  Bytes, codes, ltb, leb, ◌==◌, if◌then◌else◌, Option, none, some,
}
use dbslayer.Plotr.Prototype.{to_color_part}

pub record Rgb : Type 0 where
  pub r : ℕ
  pub g : ℕ
  pub b : ℕ

-- `parseInt(s, 16)` on a text that starts with a digit: it reads up to the first other character.
abbrev pub digit_step : ℕ → Option ℕ → (ℕ → ℕ) → ℕ
digit_step n none loop = n
digit_step n (some d) loop = loop (n * 16 + d)

unfoldable pub parse_hex : ℕ → Bytes → ℕ
parse_hex n [] = n
parse_hex n (c ∷ cs) = digit_step n (hex_value c) (λ m. parse_hex m cs)

-- `hex.indexOf('#') > -1`
unfoldable pub has_hash : Bytes → Bool
has_hash [] = false
has_hash (c ∷ cs) = c == b'#' || has_hash cs

abbrev pub substring_one : Bytes → Bytes
substring_one [] = []
substring_one (c ∷ cs) = cs

-- `>> 16`, `(hex & 0x00FF00) >> 8` and `hex & 0x0000FF` of a number below 2 ^ 31
abbrev pub rgb_of_number : ℕ → Rgb
rgb_of_number n = record { r = n / 65536; g = n % 65536 / 256; b = n % 256 }

unfoldable pub hex_to_rgb : Bytes → Rgb
unfolding has_hash
hex_to_rgb hex = rgb_of_number (parse_hex 0 (if has_hash hex then substring_one hex else hex))

unfoldable pub to_rgb_string : Rgb → Bytes
to_rgb_string c = b'#' ∷ (to_color_part c.r ++ (to_color_part c.g ++ to_color_part c.b))
