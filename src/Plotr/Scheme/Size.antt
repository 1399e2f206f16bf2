-- ===== src/Plotr/Scheme/Size.antt =====
-- How many colors a color scheme has.
use dbslayer.Prelude.{
  ℕ, zero, suc, ◌+◌, ◌≡◌, refl, ap, ◌∙◌, Bool, true, false, List, [], ◌∷◌, Bytes, length, Option,
  none, some, arith,
}
use mathlib.Core.List.{reverse_aux}
use dbslayer.Plotr.Number.{Number}
use dbslayer.Plotr.Prototype.{times_from}
use dbslayer.Plotr.Scheme.{
  generate_colorscheme, get_colorscheme, color_schemes, size_or_three, expand,
}

length-times_from {ℓ} : {A : Type ℓ} (n i : ℕ) (f : ℕ → A) → length (times_from i n f) ≡ n
unfolding times_from
length-times_from zero i f = refl
length-times_from (suc n) i f = ap suc (length-times_from n (i + 1) f)

length-reverse_aux {ℓ} :
    {A : Type ℓ} (xs r : List A) → length (reverse_aux xs r) ≡ length xs + length r
length-reverse_aux [] r = omega arith
length-reverse_aux (x ∷ xs) r = omega (arith, length-reverse_aux xs (x ∷ r))

+_zero : (n : ℕ) → n + 0 ≡ n
+_zero n = omega arith

module _ (num : Number) where
  -- A generated color scheme has exactly as many colors as are asked for, in either direction.
  pub length-generate_colorscheme :
      (hex : Bytes) (size : ℕ) (is_reversed : Bool)
      → length (generate_colorscheme num hex size is_reversed) ≡ size
  unfolding generate_colorscheme
  length-generate_colorscheme hex size true =
      length-reverse_aux _ [] ∙ +_zero _ ∙ length-times_from size 0 _
  length-generate_colorscheme hex size false = length-times_from size 0 _

  length-expand :
      (color : Bytes) (o : Option Bytes) (size : ℕ)
      → length (expand num color o size) ≡ size_or_three size
  length-expand color none size = length-generate_colorscheme color (size_or_three size) false
  length-expand color (some scheme) size =
      length-generate_colorscheme scheme (size_or_three size) false

  -- A color scheme for `size` colors has `size` of them, and 3 when `size` is 0, whether the color is
  -- one of the names in `colorSchemes` or a hexadecimal code.
  pub length-get_colorscheme :
      (color : Bytes) (size : ℕ) → length (get_colorscheme num color size) ≡ size_or_three size
  unfolding get_colorscheme
  length-get_colorscheme color size = length-expand color (color_schemes color) size
