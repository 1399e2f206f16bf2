-- ===== src/Plotr/Pie/Slices.antt =====
-- The slices of a pie: which items they show, and how their angles meet.
use dbslayer.Prelude.{
  ◌≡◌, refl, sym, subst, All, ap, Bool, true, false, List, [], ◌∷◌, Option, some, map,
  if◌then◌else◌,
}
use dbslayer.Plotr.Number.{Number}
use dbslayer.Plotr.Chart.{Chart, Item, Slice}
use dbslayer.Plotr.Pie.{radians, sum, slice_of, slices_from, eval_pie_chart, pie_of}

module _ (num : Number) where
  open num use {Num, of_ℕ, lt, div, add}

  -- Every slice starts at the angle at which the one before it ends, the first one at `start`.
  abbrev pub AreChained : Num → List (Slice num) → Type 0
  AreChained start [] = Unit
  AreChained start (s ∷ ss) = (s.start_angle ≡ start) × AreChained s.end_angle ss

  abbrev keep_positive : Bool → Item num → List (Item num) → List (Item num)
  keep_positive b i is = if b then i ∷ is else is

  -- the items with a value above 0
  abbrev pub positive : List (Item num) → List (Item num)
  positive [] = []
  positive (i ∷ is) = keep_positive (lt (of_ℕ 0) i.y_value) i (positive is)

  -- what a slice keeps of its item
  abbrev pub item_of : Slice num → Item num
  item_of s = record { x_value = s.xval; y_value = s.yval }

  -- its share of the whole
  abbrev pub IsShare : Num → Slice num → Type 0
  IsShare total s = s.fraction ≡ div s.yval total

  pub record ArePie (total start : Num) (is : List (Item num)) (ss : List (Slice num))
      : Type 0 where
    pub items_eq : map item_of ss ≡ positive is
    pub are_shares : All (IsShare total) ss
    pub are_chained : AreChained start ss

  slice_or :
      (b : Bool) (total angle : Num) (i : Item num) (is : List (Item num))
      (rest skipped : List (Slice num))
      → ArePie total (radians num (add angle (div i.y_value total))) is rest
      → ArePie total (radians num angle) is skipped
      → (map item_of (if b then slice_of num total angle i ∷ rest else skipped)
          ≡ keep_positive b i (positive is))
        × All (IsShare total) (if b then slice_of num total angle i ∷ rest else skipped)
        × AreChained (radians num angle) (if b then slice_of num total angle i ∷ rest else skipped)
  slice_or true total angle i is rest skipped h k =
      (ap (λ js. i ∷ js) h.items_eq, (refl, h.are_shares), (refl, h.are_chained))
  slice_or false total angle i is rest skipped h k = (k.items_eq, k.are_shares, k.are_chained)

  slices_from-ArePie :
      (total angle : Num) (is : List (Item num))
      → ArePie total (radians num angle) is (slices_from num total angle is)
  unfolding slices_from
  slices_from-ArePie total angle [] = record { items_eq = refl; are_shares = tt; are_chained = tt }
  slices_from-ArePie total angle (i ∷ is) =
      let h =
        slice_or (lt (of_ℕ 0) i.y_value) total angle i is _ _
          (slices_from-ArePie total (add angle (div i.y_value total)) is)
          (slices_from-ArePie total angle is) in
      record { items_eq = h.0; are_shares = h.1; are_chained = h.2 }

  abbrev pub HasPie : Num → List (Item num) → Option (Chart num) → Type 0
  HasPie total is o =
      (d : Chart num) × ((o ≡ some d) × ArePie total (radians num (of_ℕ 0)) is d.slices)

  -- A pie of the data set `store` has one slice for each item with a value above 0, in their order,
  -- whose fraction is the value divided by the sum of all values; the first slice starts at angle 0
  -- and each other one exactly where the slice before it ends.
  pub eval_pie_chart-ArePie :
      (c : Chart num) (store : List (Item num)) (others : List (List (Item num)))
      → c.stores ≡ store ∷ others
      → HasPie (sum num (map (λ i. i.y_value) store)) store (eval_pie_chart num c)
  unfolding eval_pie_chart
  eval_pie_chart-ArePie c store others e =
      subst (λ ss. HasPie (sum num (map (λ i. i.y_value) store)) store (pie_of num c ss)) (sym e)
        (_, (refl, slices_from-ArePie _ (of_ℕ 0) store))
