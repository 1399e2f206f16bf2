-- ===== src/Plotr/Table/Tests.antt =====
-- The table of the statistics page, two rows of numbers below a row of titles.
use dbslayer.Prelude.{ℕ, ◌+◌, ◌-◌, ◌≡◌, List, [], ◌∷◌, Bytes, codes, get_elem?, some, arith}
use dbslayer.Plotr.Chart.{Chart, Dataset}
use dbslayer.Plotr.Chart.Sets.{find, latest}
use dbslayer.Plotr.Table.{add_table}
use dbslayer.Plotr.Table.Cells.{as_item, name_of, row_name, item_in, cell_in, add_table-Cells}
use dbslayer.Plotr.Tests.{naturals, chart}

abbrev hits_table : List (List Bytes)
hits_table =
    (codes "" ∷ codes "mon" ∷ codes "tue" ∷ [])
    ∷ (codes "hits" ∷ codes "333" ∷ codes "22" ∷ [])
    ∷ (codes "slow" ∷ codes "1" ∷ codes "22" ∷ [])
    ∷ []

add_table-Cells_example :
    (c' : Chart naturals) × (sets : List (Dataset naturals)) × (add_table naturals hits_table
        (some 1)
        (some 1)
        (some 0)
        chart
      ≡ some c')
    × ((name : Bytes)
        → find naturals name c'.data_stores
          ≡ latest naturals name sets (find naturals name chart.data_stores))
    × (c'.sets ≡ 3 - 1 + chart.sets)
    × ((i : ℕ)
        → name_of naturals (get_elem? sets i)
          ≡ row_name naturals (1 + i) (get_elem? hits_table (1 + i)))
    × ((i k : ℕ)
        → item_in naturals (get_elem? sets i) k
          ≡ as_item naturals k (cell_in (get_elem? hits_table (1 + i)) (1 + k)))
add_table-Cells_example = add_table-Cells naturals hits_table 1 1 (some 0) chart (omega arith)
