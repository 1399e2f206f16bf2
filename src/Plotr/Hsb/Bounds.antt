-- ===== src/Plotr/Hsb/Bounds.antt =====
-- The range of a color in hue, saturation and brightness.
use dbslayer.Prelude.{
  ℕ, ◌≡◌, refl, ◌+◌, ◌-◌, ◌*◌, ◌≤◌, ◌<◌, Bool, true, false, ◌&&◌, leb, ◌==◌, if◌then◌else◌, arith,
}
use native.Mathlib.Nat.{div-lt_iff_lt-mul}
use dbslayer.Plotr.Color.{Rgb}
use dbslayer.Plotr.Hsb.{round_div, saturation, sector, hue, rgb_to_hsb}

round_div_le : (n d k : ℕ) → 0 < d → n ≤ k * d → round_div n d ≤ k
round_div_le n d k pos le =
    let lt : round_div n d < k + 1 =
      (div-lt_iff_lt-mul {k = 2 * d} {x = 2 * n + d} {y = k + 1} (omega arith)).1 (omega arith) in
    omega arith

sector_le : (start n d : ℕ) → n ≤ d → 0 < d → sector start n d ≤ start + 60
sector_le start n d le pos = ground (arith, round_div_le (60 * n) d 60 pos (omega arith))

sector_or_le :
    (t : Bool) (start n d rest : ℕ)
    → start ≤ 300
    → (t ≡ true → n ≤ d)
    → (t ≡ true → 0 < d)
    → rest ≤ 360
    → (if t then sector start n d else rest) ≤ 360
sector_or_le true start n d rest hs le pos hr =
    ground (arith, hs, sector_le start n d (le refl) (pos refl))
sector_or_le false start n d rest hs le pos hr = hr

zero_or_le : (t : Bool) (rest k : ℕ) → (t ≡ false → rest ≤ k) → (if t then 0 else rest) ≤ k
zero_or_le true rest k h = omega arith
zero_or_le false rest k h = h refl

hue_le : (r g b : ℕ) → hue r g b ≤ 360
unfolding hue
hue_le r g b = zero_or_le (r == g && g == b) _ 360 (λ grey.
    sector_or_le (leb g r && leb b g) 0 (g - b) (r - b) _ (omega arith) (λ t. ground arith)
      (λ t. ground arith)
      (sector_or_le (leb r g && leb b r) 60 (g - r) (g - b) _ (omega arith) (λ t. ground arith)
        (λ t. ground arith)
        (sector_or_le (leb b g && leb r b) 120 (b - r) (g - r) _ (omega arith) (λ t. ground arith)
          (λ t. ground arith)
          (sector_or_le (leb g b && leb r g) 180 (b - g) (b - r) _ (omega arith) (λ t. ground arith)
            (λ t. ground arith)
            (sector_or_le (leb r b && leb g r) 240 (r - g) (b - g) _ (omega arith)
              (λ t. ground arith) (λ t. ground arith)
              (sector_or_le (leb b r && leb g b) 300 (r - b) (r - g) _ (omega arith)
                (λ t. ground arith) (λ t. ground arith) (omega arith)))))))

saturation_le : (most least : ℕ) → saturation most least ≤ 100
saturation_le most least =
    zero_or_le (leb most 0) _ 100
      (λ t. round_div_le (100 * (most - least)) most 100 (ground arith) (omega arith))

-- A color with components below 256 has a hue of at most 360 degrees, and a saturation and a
-- brightness of at most 100 percent.
pub rgb_to_hsb_le :
    (c : Rgb)
    → c.r < 256
    → c.g < 256
    → c.b < 256
    → ((rgb_to_hsb c).h ≤ 360) × ((rgb_to_hsb c).s ≤ 100) × ((rgb_to_hsb c).b ≤ 100)
unfolding rgb_to_hsb
rgb_to_hsb_le c hr hg hb =
    (hue_le c.r c.g c.b, saturation_le _ _, round_div_le _ 255 100 (omega arith) (omega arith))
