-- ===== src/Plotr/Table/Cells.antt =====
-- The data sets of a table against its cells.
use dbslayer.Prelude.{
  length-drop, ℕ, zero, suc, ◌+◌, ◌-◌, ◌<◌, ◌≡◌, refl, ap, ap₂, ◌∙◌, List, [], ◌∷◌, ◌++◌, Bytes,
  codes, length, drop, get_elem?, Option, none, some, arith,
}
use dbslayer.Plotr.Number.{Number}
use dbslayer.Plotr.Chart.{Chart, Dataset, Item, add_dataset}
use dbslayer.Plotr.Chart.Sets.{find, latest, find-add_dataset}
use dbslayer.Plotr.Table.{cell_items, row_sets, ticks_row, with_ticks, then_sets, add_table}

module _ {ℓ} {A : Type ℓ} where
  get_elem?-drop : (n k : ℕ) (xs : List A) → get_elem? (drop n xs) k ≡ get_elem? xs (n + k)
  get_elem?-drop zero k xs = ap (get_elem? xs) (omega arith)
  get_elem?-drop (suc n) k [] = refl
  get_elem?-drop (suc n) k (x ∷ xs) =
      get_elem?-drop n k xs ∙ ap (get_elem? (x ∷ xs)) {x = suc (n + k)} (omega arith)

  get_elem?-some : (i : ℕ) (xs : List A) → i < length xs → (x : A) × (get_elem? xs i ≡ some x)
  get_elem?-some i [] h = absurd (omega (arith, h))
  get_elem?-some zero (x ∷ xs) h = (x, refl)
  get_elem?-some (suc i) (x ∷ xs) h = get_elem?-some i xs (omega (arith, h))

  -- the cell in column `k` of a row, if there is one
  abbrev pub cell_in : Option (List A) → ℕ → Option A
  cell_in none k = none
  cell_in (some row) k = get_elem? row k

-- the argument `xticks` is null or a row of the table
abbrev pub IsRow : List (List Bytes) → Option ℕ → Type 0
IsRow rows none = Unit
IsRow rows (some i) = i < length rows

module _ (num : Number) where
  open num use {Num, of_ℕ, to_string, parse_text}

  abbrev pub as_item : ℕ → Option Bytes → Option (Item num)
  as_item k none = none
  as_item k (some t) = some (record { x_value = of_ℕ k; y_value = parse_text t })

  abbrev pub name_of : Option (Dataset num) → Option Bytes
  name_of none = none
  name_of (some d) = some d.name

  abbrev pub row_name : ℕ → Option (List Bytes) → Option Bytes
  row_name i none = none
  row_name i (some row) = some (codes "row_" ++ to_string (of_ℕ i))

  abbrev pub item_in : Option (Dataset num) → ℕ → Option (Item num)
  item_in none k = none
  item_in (some d) k = get_elem? d.items k

  cell_items_lem :
      (j k : ℕ) (ts : List Bytes)
      → get_elem? (cell_items num j ts) k ≡ as_item (j + k) (get_elem? ts k)
  unfolding cell_items
  cell_items_lem j k [] = refl
  cell_items_lem j zero (t ∷ ts) = ap (λ n. as_item n (some t)) {x = j} (omega arith)
  cell_items_lem j (suc k) (t ∷ ts) =
      cell_items_lem (j + 1) k ts ∙ ap (λ n. as_item n (get_elem? ts k)) (index_eq j k)
    where
      index_eq : (j k : ℕ) → j + 1 + k ≡ j + suc k
      index_eq j k = omega arith

  abbrev as_set : ℕ → ℕ → Option (List Bytes) → Option (Dataset num)
  as_set x i none = none
  as_set x i (some row) =
      some (record {
        name = codes "row_" ++ to_string (of_ℕ i);
        items = cell_items num 0 (drop x row);
      })

  row_sets_lem :
      (x i k : ℕ) (rows : List (List Bytes))
      → get_elem? (row_sets num x i rows) k ≡ as_set x (i + k) (get_elem? rows k)
  unfolding row_sets
  row_sets_lem x i k [] = refl
  row_sets_lem x i zero (r ∷ rows) = ap (λ n. as_set x n (some r)) {x = i} (omega arith)
  row_sets_lem x i (suc k) (r ∷ rows) =
      row_sets_lem x (i + 1) k rows ∙ ap (λ n. as_set x n (get_elem? rows k)) (index_eq i k)
    where
      index_eq : (i k : ℕ) → i + 1 + k ≡ i + suc k
      index_eq i k = omega arith

  length-row_sets :
      (x i : ℕ) (rows : List (List Bytes)) → length (row_sets num x i rows) ≡ length rows
  unfolding row_sets
  length-row_sets x i [] = refl
  length-row_sets x i (r ∷ rows) = ap suc (length-row_sets x (i + 1) rows)

  name_lem : (x i : ℕ) (row : Option (List Bytes)) → name_of (as_set x i row) ≡ row_name i row
  name_lem x i none = refl
  name_lem x i (some row) = refl

  item_lem :
      (x i k : ℕ) (row : Option (List Bytes))
      → item_in (as_set x i row) k ≡ as_item k (cell_in row (x + k))
  item_lem x i k none = refl
  item_lem x i k (some row) =
      cell_items_lem 0 k (drop x row)
      ∙ ap₂ as_item {x = 0 + k} {y = k} (omega arith) (get_elem?-drop x k row)

  -- the labels change the options alone
  ticks_lem :
      (x : ℕ) (c : Chart num) (rows : List (List Bytes)) (xticks : Option ℕ)
      → IsRow rows xticks
      → (c' : Chart num) × (ticks_row num x c rows xticks ≡ some c')
        × (c'.data_stores ≡ c.data_stores)
        × (c'.sets ≡ c.sets)
  ticks_lem x c rows none h = (c, refl, refl, refl)
  ticks_lem x c rows (some i) h =
      let row = get_elem?-some i rows h in (_, ap (with_ticks num x c) row.1, refl, refl)

  -- When `xticks` is null or a row of the table, `addTable` adds one data set for each row from the
  -- row `y` on. The set for row `y + i` is named after the row, and its item `k` has the value `k` and
  -- the number in column `x + k`, as long as the row has such a column. A name of the chart then
  -- stands for the last set of that name, and else for what it stood for before.
  pub add_table-Cells :
      (rows : List (List Bytes)) (x y : ℕ) (xticks : Option ℕ) (c : Chart num)
      → IsRow rows xticks
      → (c' : Chart num) × (sets : List (Dataset num)) × (add_table num rows
            (some x)
            (some y)
            xticks
            c
          ≡ some c')
        × ((name : Bytes)
            → find num name c'.data_stores ≡ latest num name sets (find num name c.data_stores))
        × (c'.sets ≡ length rows - y + c.sets)
        × ((i : ℕ) → name_of (get_elem? sets i) ≡ row_name (y + i) (get_elem? rows (y + i)))
        × ((i k : ℕ)
            → item_in (get_elem? sets i) k ≡ as_item k (cell_in (get_elem? rows (y + i)) (x + k)))
  unfolding add_table
  add_table-Cells rows x y xticks c h =
      let t = ticks_lem x c rows xticks h in
      let sets = row_sets num x y (drop y rows) in
      let set_eq : (i : ℕ) → get_elem? sets i ≡ as_set x (y + i) (get_elem? rows (y + i)) =
        λ i. row_sets_lem x y i (drop y rows) ∙ ap (as_set x (y + i)) (get_elem?-drop y i rows) in
      (
        add_dataset num sets t.0,
        sets,
        ap (then_sets num sets) t.1,
        λ name.
            (find-add_dataset num name sets t.0).0
            ∙ ap (λ ds. latest num name sets (find num name ds)) t.2,
        (find-add_dataset num [] sets t.0).1
            ∙ ap₂ (λ n m. n + m) (length-row_sets x y (drop y rows) ∙ length-drop y rows) t.3,
        λ i. ap name_of (set_eq i) ∙ name_lem x (y + i) _,
        λ i k. ap (λ s. item_in s k) (set_eq i) ∙ item_lem x (y + i) k _,
      )
