-- ===== src/Db/Table/Tests.antt =====
-- db/dbaccess.c: `dbresult2json` on a result.
use dbslayer.Prelude.{ℕ, [], ◌∷◌, Bytes, List, codes, length, ◌≡◌, refl, none, some, map}
use dbslayer.Json.Value.{Value, pos, Items, array, string, long, skip_get}
use dbslayer.Db.Table.{
  Field, Result, long_type, varchar, unknown_type, array_of, row_of, dbresult2json,
}
use dbslayer.Json.Scan.{strtol, strtol_digits, read_digits, clamp_long}
use dbslayer.Db.Table.Typed.{RowsAreTyped, dbresult2json-RowsAreTyped}

abbrev atof : Bytes → ℕ
atof text = 0

abbrev people : Result
people = record {
  fields =
      record { name = codes "id"; type = long_type; charsetnr = 33 }
      ∷ record { name = codes "name"; type = varchar; charsetnr = 33 }
      ∷ [];
  rows = (some (codes "-12") ∷ some (codes "Ann") ∷ []) ∷ (some (codes "7") ∷ none ∷ []) ∷ [];
}

dbresult2json-RowsAreTyped_example :
    (types : Items) × (rows : List Value) × (skip_get (codes "HEADER") (dbresult2json atof people)
      ≡ some (array (array_of (map (λ f. string f.name) people.fields))))
    × (skip_get (codes "TYPES") (dbresult2json atof people) ≡ some (array types))
    × (skip_get (codes "ROWS") (dbresult2json atof people) ≡ some (array (array_of rows)))
    × RowsAreTyped types (array_of rows)
    × (length rows ≡ length people.rows)
dbresult2json-RowsAreTyped_example =
    dbresult2json-RowsAreTyped atof people (tt, (tt, tt)) (refl, (refl, tt))

-- a column of a type that the code does not name leaves no cell, and the next moves into its place
abbrev newer : List Field
newer =
    record { name = codes "doc"; type = unknown_type; charsetnr = 33 }
    ∷ record { name = codes "id"; type = long_type; charsetnr = 33 }
    ∷ []

row_of-newer : row_of atof newer (some (codes "{}") ∷ some (codes "7") ∷ []) ≡ long (pos 7) ∷ []
unfolding row_of strtol strtol_digits read_digits clamp_long
row_of-newer = refl
