-- ===== src/Plotr/Table.antt =====
-- htdocs/plotr/Chart.js: `addTable`, the data sets of an HTML table, given as the texts of its cells.
pub mod Cells
pub mod Tests
use dbslayer.Prelude.{
  ℕ, ◌+◌, List, [], ◌∷◌, ◌++◌, Bytes, codes, drop, get_elem?, Option, none, some,
}
use dbslayer.Plotr.Number.{Number}
use dbslayer.Plotr.Settings.{OptionTick}
use dbslayer.Plotr.Chart.{Chart, Dataset, Item, add_dataset}

module _ (num : Number) where
  open num use {Num, of_ℕ, to_string, parse_text}

  -- `[j++, parseFloat(cell.innerHTML)]`
  unfoldable pub cell_items : ℕ → List Bytes → List (Item num)
  cell_items j [] = []
  cell_items j (t ∷ ts) =
      record { x_value = of_ℕ j; y_value = parse_text t } ∷ cell_items (j + 1) ts

  -- `{v: tickIndex++, label: cell.innerHTML}`
  unfoldable pub cell_ticks : ℕ → List Bytes → List (OptionTick num)
  cell_ticks j [] = []
  cell_ticks j (t ∷ ts) = record { v = of_ℕ j; label = some t } ∷ cell_ticks (j + 1) ts

  -- the rows from the `i`th on, without the cells in front of column `x`
  unfoldable pub row_sets : ℕ → ℕ → List (List Bytes) → List (Dataset num)
  unfolding cell_items
  row_sets x i [] = []
  row_sets x i (r ∷ rs) =
      record { name = codes "row_" ++ to_string (of_ℕ i); items = cell_items 0 (drop x r) }
      ∷ row_sets x (i + 1) rs

  abbrev pub or_default : Option ℕ → ℕ → ℕ
  or_default none d = d
  or_default (some n) d = n

  abbrev pub with_ticks : ℕ → Chart num → Option (List Bytes) → Option (Chart num)
  with_ticks x c none = none
  with_ticks x c (some r) =
      some (record c { options = record c.options { x_ticks = some (cell_ticks 0 (drop x r)) } })

  -- `if (xticks >= 0)`; a row that the table has not is a TypeError
  abbrev pub ticks_row : ℕ → Chart num → List (List Bytes) → Option ℕ → Option (Chart num)
  ticks_row x c rows none = some c
  ticks_row x c rows (some i) = with_ticks x c (get_elem? rows i)

  abbrev pub then_sets : List (Dataset num) → Option (Chart num) → Option (Chart num)
  then_sets ds none = none
  then_sets ds (some c) = some (add_dataset num ds c)

  -- `addTable`; an argument that is null is `none`
  unfoldable pub add_table :
      List (List Bytes) → Option ℕ → Option ℕ → Option ℕ → Chart num → Option (Chart num)
  unfolding row_sets cell_ticks
  add_table rows x y xticks c =
      then_sets (row_sets (or_default x 0) (or_default y 1) (drop (or_default y 1) rows))
        (ticks_row (or_default x 0) c rows xticks)
