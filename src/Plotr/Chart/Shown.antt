-- ===== src/Plotr/Chart/Shown.antt =====
-- What the data sets hold, item by item: what the marks of a chart show of them.
use dbslayer.Prelude.{◌≡◌, refl, ap, List, [], ◌∷◌, ◌++◌, Bytes, map, All}
use dbslayer.Plotr.Number.{Number}
use dbslayer.Plotr.Chart.{Item, Dataset}

pub map-append {ℓ κ} :
    {A : Type ℓ} {B : Type κ} (f : A → B) (xs ys : List A) → map f (xs ++ ys) ≡ map f xs ++ map f ys
map-append f [] ys = refl
map-append f (x ∷ xs) ys = ap (λ zs. f x ∷ zs) (map-append f xs ys)

pub All-split {ℓ κ} :
    {A : Type ℓ} (P : A → Type κ) (xs ys : List A) → All P (xs ++ ys) → All P xs × All P ys
All-split P [] ys h = (tt, h)
All-split P (x ∷ xs) ys (p, h) = let r = All-split P xs ys h in ((p, r.0), r.1)

module _ (num : Number) where
  open num use {Num, parse_float}

  -- the set, the place and the value of a mark, as they stand in the data
  pub record Shown : Type 0 where
    pub name : Bytes
    pub xval : Num
    pub yval : Num

  abbrev pub shown_item : Bytes → Item num → Shown
  shown_item name i = record {
    name = name;
    xval = parse_float i.x_value;
    yval = parse_float i.y_value;
  }

  abbrev pub shown_data : List (Dataset num) → List Shown
  shown_data [] = []
  shown_data (d ∷ ds) = map (shown_item d.name) d.items ++ shown_data ds
