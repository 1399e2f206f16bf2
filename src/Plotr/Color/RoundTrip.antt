-- ===== src/Plotr/Color/RoundTrip.antt =====
-- A color that is written as text is read back.
use dbslayer.Prelude.{
  passes_under, passes_at, digit, hex_value-digit, ℕ, ◌+◌, ◌*◌, ◌/◌, ◌%◌, ◌<◌, ◌≡◌, refl, sym, ap,
  ◌∙◌, true, [], ◌∷◌, ◌++◌, Bytes, arith, append-nil, bytes_eq, bytes_eq_iff,
}
use dbslayer.Plotr.Prototype.{to_color_part}
use dbslayer.Plotr.Color.{
  Rgb, parse_hex, has_hash, digit_step, rgb_of_number, hex_to_rgb, to_rgb_string,
}

part_table :
    passes_under (λ n. bytes_eq (to_color_part n) (digit (n / 16) ∷ digit (n % 16) ∷ [])) 256 ≡ true
unfolding passes_under to_color_part bytes_eq
part_table = refl

-- a component below 256 is written as its two digits
to_color_part-digits : (n : ℕ) → n < 256 → to_color_part n ≡ digit (n / 16) ∷ digit (n % 16) ∷ []
to_color_part-digits n h = (bytes_eq_iff _ _).0 (passes_at _ n 256 part_table h)

parse_hex-digit :
    (m d : ℕ) (rest : Bytes) → d < 16 → parse_hex m (digit d ∷ rest) ≡ parse_hex (m * 16 + d) rest
unfolding parse_hex
parse_hex-digit m d rest h = ap (λ o. digit_step m o (λ k. parse_hex k rest)) (hex_value-digit d h)

parse_hex-to_color_part :
    (m n : ℕ) (rest : Bytes)
    → n < 256
    → parse_hex m (to_color_part n ++ rest) ≡ parse_hex (m * 256 + n) rest
parse_hex-to_color_part m n rest h =
    ap (λ t. parse_hex m (t ++ rest)) (to_color_part-digits n h)
    ∙ parse_hex-digit m (n / 16) (digit (n % 16) ∷ rest) (omega arith)
    ∙ parse_hex-digit (m * 16 + n / 16) (n % 16) rest (omega arith)
    ∙ ap (λ k. parse_hex k rest) (omega arith)

rgb_of_digits :
    (r g b : ℕ)
    → g < 256
    → b < 256
    → rgb_of_number (((0 * 256 + r) * 256 + g) * 256 + b) ≡ record { r = r; g = g; b = b }
rgb_of_digits r g b hg hb =
    let n = ((0 * 256 + r) * 256 + g) * 256 + b in
    let red : n / 65536 ≡ r = omega arith in
    let green : n % 65536 / 256 ≡ g = omega arith in
    let blue : n % 256 ≡ b = omega arith in λ i. record { r = red i; g = green i; b = blue i }

-- `hexToRGB` reads back what `toRGBString` writes for a color with components below 256.
pub hex_to_rgb-to_rgb_string :
    (c : Rgb) → c.r < 256 → c.g < 256 → c.b < 256 → hex_to_rgb (to_rgb_string c) ≡ c
unfolding hex_to_rgb to_rgb_string parse_hex has_hash
hex_to_rgb-to_rgb_string c hr hg hb =
    ap rgb_of_number (
      parse_hex-to_color_part 0 c.r _ hr
      ∙ parse_hex-to_color_part _ c.g _ hg
      ∙ ap (parse_hex _) (sym (append-nil (to_color_part c.b)))
      ∙ parse_hex-to_color_part _ c.b [] hb)
    ∙ rgb_of_digits c.r c.g c.b hg hb
