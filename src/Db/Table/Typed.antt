-- ===== src/Db/Table/Typed.antt =====
-- db/dbaccess.c: the cells of a result, as a client reads them under the names of their types.
use dbslayer.Prelude.{
  ℕ, Bool, true, false, Bool-cases, inl, inr, List, [], ◌∷◌, Bytes, codes, bytes_eq, ◌==◌, length,
  length-map, All, ◌≡◌, refl, if◌then◌else◌, Option, none, some, map, arith,
}
use dbslayer.Json.Value.{
  Value, Items, array, string, long, longlong, double, null, no_items, item, skip_put, skip_get,
  bytes_lt,
}
use dbslayer.Db.Table.{
  FieldType, tiny, short, long_type, int24, decimal, newdecimal, double_type, float, longlong_type,
  bit, timestamp, date, time, datetime, year, string_type, var_string, newdate, varchar, blob,
  tiny_blob, medium_blob, long_blob, set_type, enum_type, geometry, null_type, unknown_type, Field,
  Result, type_name, or_null, array_of, cells_of, row_of, dbresult2json,
}

-- what a client expects of the cells of a column
pub data CellKind : Type 0 where
  of_long of_longlong of_double of_string of_null : CellKind

unfoldable pub expected : List (Bytes × CellKind) → Bytes → Option CellKind
expected [] name = none
expected ((n, kind) ∷ kinds) name =
    let rest = expected kinds name in if bytes_eq n name then some kind else rest

abbrev pub kinds : List (Bytes × CellKind)
kinds =
    (codes "MYSQL_TYPE_TINY", of_long)
    ∷ (codes "MYSQL_TYPE_SHORT", of_long)
    ∷ (codes "MYSQL_TYPE_LONG", of_long)
    ∷ (codes "MYSQL_TYPE_INT24", of_long)
    ∷ (codes "MYSQL_TYPE_LONGLONG", of_longlong)
    ∷ (codes "MYSQL_TYPE_DECIMAL", of_double)
    ∷ (codes "MYSQL_TYPE_NEWDECIMAL", of_double)
    ∷ (codes "MYSQL_TYPE_DOUBLE", of_double)
    ∷ (codes "MYSQL_TYPE_FLOAT", of_double)
    ∷ (codes "MYSQL_TYPE_BIT", of_string)
    ∷ (codes "MYSQL_TYPE_TIMESTAMP", of_string)
    ∷ (codes "MYSQL_TYPE_DATE", of_string)
    ∷ (codes "MYSQL_TYPE_TIME", of_string)
    ∷ (codes "MYSQL_TYPE_DATETIME", of_string)
    ∷ (codes "MYSQL_TYPE_YEAR", of_string)
    ∷ (codes "MYSQL_TYPE_STRING", of_string)
    ∷ (codes "MYSQL_TYPE_VAR_STRING", of_string)
    ∷ (codes "MYSQL_TYPE_NEWDATE", of_string)
    ∷ (codes "MYSQL_TYPE_VARCHAR", of_string)
    ∷ (codes "MYSQL_TYPE_BLOB", of_string)
    ∷ (codes "MYSQL_TYPE_TINY_BLOB", of_string)
    ∷ (codes "MYSQL_TYPE_MEDIUM_BLOB", of_string)
    ∷ (codes "MYSQL_TYPE_LONG_BLOB", of_string)
    ∷ (codes "MYSQL_TYPE_TEXT", of_null)
    ∷ (codes "MYSQL_TYPE_SET", of_null)
    ∷ (codes "MYSQL_TYPE_ENUM", of_null)
    ∷ (codes "MYSQL_TYPE_GEOMETRY", of_null)
    ∷ (codes "MYSQL_TYPE_NULL", of_null)
    ∷ []

-- a cell of each kind may be null
unfoldable pub holds : Option CellKind → Value → Bool
holds none v = false
holds (some kind) null = true
holds (some of_long) (long n) = true
holds (some of_longlong) (longlong n) = true
holds (some of_double) (double d) = true
holds (some of_string) (string s) = true
holds (some kind) v = false

unfoldable pub fits : Value → Value → Bool
unfolding expected holds
fits (string name) v = holds (expected kinds name) v
fits type v = false

-- a cell of its kind under each type, and nothing behind
unfoldable pub AreTyped : Items → Items → Type 0
unfolding expected holds fits
AreTyped no_items no_items = Unit
AreTyped (item t ts) (item v vs) = (fits t v ≡ true) × AreTyped ts vs
AreTyped no_items (item v vs) = ⊥
AreTyped (item t ts) no_items = ⊥

unfoldable pub RowsAreTyped : Items → Items → Type 0
unfolding expected holds fits AreTyped
RowsAreTyped types no_items = Unit
RowsAreTyped types (item row rows) =
    ((cells : Items) × (row ≡ array cells) × AreTyped types cells) × RowsAreTyped types rows

-- the types that the code names
abbrev pub IsKnown : FieldType → Type 0
IsKnown unknown_type = ⊥
IsKnown type = Unit

-- what a type of one cell gives: one cell, which fits its name
abbrev CellFits : Bytes → List Value → Type 0
CellFits name cells = (v : Value) × (cells ≡ v ∷ []) × (fits (string name) v ≡ true)

or_null-fits :
    (kind : CellKind) (make : Bytes → Value) (t : Option Bytes)
    → holds (some kind) null ≡ true
    → ((text : Bytes) → holds (some kind) (make text) ≡ true)
    → holds (some kind) (or_null make t) ≡ true
or_null-fits kind make none n h = n
or_null-fits kind make (some text) n h = h text

abbrev pub types_of : List Field → Items
types_of fields = array_of (map (λ f. string (type_name f.type f.charsetnr)) fields)

module _ (atof : Bytes → ℕ) where
  cells_of-CellFits :
      (type : FieldType) (n : ℕ) (t : Option Bytes)
      → IsKnown type
      → CellFits (type_name type n) (cells_of atof type n t)
  unfolding fits expected holds bytes_eq
  cells_of-CellFits tiny n t h = (_, refl, or_null-fits of_long _ t refl (λ _. refl))
  cells_of-CellFits short n t h = (_, refl, or_null-fits of_long _ t refl (λ _. refl))
  cells_of-CellFits long_type n t h = (_, refl, or_null-fits of_long _ t refl (λ _. refl))
  cells_of-CellFits int24 n t h = (_, refl, or_null-fits of_long _ t refl (λ _. refl))
  cells_of-CellFits longlong_type n t h = (_, refl, or_null-fits of_longlong _ t refl (λ _. refl))
  cells_of-CellFits decimal n t h = (_, refl, or_null-fits of_double _ t refl (λ _. refl))
  cells_of-CellFits newdecimal n t h = (_, refl, or_null-fits of_double _ t refl (λ _. refl))
  cells_of-CellFits double_type n t h = (_, refl, or_null-fits of_double _ t refl (λ _. refl))
  cells_of-CellFits float n t h = (_, refl, or_null-fits of_double _ t refl (λ _. refl))
  cells_of-CellFits bit n t h = (_, refl, or_null-fits of_string _ t refl (λ _. refl))
  cells_of-CellFits timestamp n t h = (_, refl, or_null-fits of_string _ t refl (λ _. refl))
  cells_of-CellFits date n t h = (_, refl, or_null-fits of_string _ t refl (λ _. refl))
  cells_of-CellFits time n t h = (_, refl, or_null-fits of_string _ t refl (λ _. refl))
  cells_of-CellFits datetime n t h = (_, refl, or_null-fits of_string _ t refl (λ _. refl))
  cells_of-CellFits year n t h = (_, refl, or_null-fits of_string _ t refl (λ _. refl))
  cells_of-CellFits string_type n t h = (_, refl, or_null-fits of_string _ t refl (λ _. refl))
  cells_of-CellFits var_string n t h = (_, refl, or_null-fits of_string _ t refl (λ _. refl))
  cells_of-CellFits newdate n t h = (_, refl, or_null-fits of_string _ t refl (λ _. refl))
  cells_of-CellFits varchar n t h = (_, refl, or_null-fits of_string _ t refl (λ _. refl))
  cells_of-CellFits blob n t h = elim (Bool-cases (n == 63)) [
    | inl e ↦ rw e (_, refl, refl)
    | inr e ↦ rw e (_, refl, or_null-fits of_string _ t refl (λ _. refl))
  ]
  cells_of-CellFits tiny_blob n t h = elim (Bool-cases (n == 63)) [
    | inl e ↦ rw e (_, refl, refl)
    | inr e ↦ rw e (_, refl, or_null-fits of_string _ t refl (λ _. refl))
  ]
  cells_of-CellFits medium_blob n t h = elim (Bool-cases (n == 63)) [
    | inl e ↦ rw e (_, refl, refl)
    | inr e ↦ rw e (_, refl, or_null-fits of_string _ t refl (λ _. refl))
  ]
  cells_of-CellFits long_blob n t h = elim (Bool-cases (n == 63)) [
    | inl e ↦ rw e (_, refl, refl)
    | inr e ↦ rw e (_, refl, or_null-fits of_string _ t refl (λ _. refl))
  ]
  cells_of-CellFits set_type n t h = (_, refl, refl)
  cells_of-CellFits enum_type n t h = (_, refl, refl)
  cells_of-CellFits geometry n t h = (_, refl, refl)
  cells_of-CellFits null_type n t h = (_, refl, refl)
  cells_of-CellFits unknown_type n t h = elim h [ ]

  row_of-AreTyped :
      (fields : List Field) (texts : List (Option Bytes))
      → All (λ f. IsKnown f.type) fields
      → length texts ≡ length fields
      → AreTyped (types_of fields) (array_of (row_of atof fields texts))
  unfolding AreTyped row_of
  row_of-AreTyped [] [] h e = tt
  row_of-AreTyped [] (t ∷ ts) h e = absurd (omega (arith, e))
  row_of-AreTyped (f ∷ fs) [] h e = absurd (omega (arith, e))
  row_of-AreTyped (f ∷ fs) (t ∷ ts) h e =
      let cell = cells_of-CellFits f.type f.charsetnr t h.0 in
      rw cell.1 (cell.2, row_of-AreTyped fs ts h.1 (omega (arith, e)))

  rows_of : List Field → List (List (Option Bytes)) → Items
  rows_of fields rows = array_of (map (λ row. array (array_of (row_of atof fields row))) rows)

  rows_of-RowsAreTyped :
      (fields : List Field) (rows : List (List (Option Bytes)))
      → All (λ f. IsKnown f.type) fields
      → All (λ row. length row ≡ length fields) rows
      → RowsAreTyped (types_of fields) (rows_of fields rows)
  unfolding RowsAreTyped rows_of
  rows_of-RowsAreTyped fields [] h e = tt
  rows_of-RowsAreTyped fields (row ∷ rows) h e =
      ((_, refl, row_of-AreTyped fields row h e.0), rows_of-RowsAreTyped fields rows h e.1)

  -- The table that dbresult2json makes of a result whose fields are all of known types, and whose rows have a
  -- text or NULL for each field: HEADER holds the names of the fields, and ROWS a row for each row of the
  -- result. In each row stand as many cells as there are names in TYPES, and each is null or of the JSON type
  -- that goes with the name.
  pub dbresult2json-RowsAreTyped :
      (r : Result)
      → All (λ f. IsKnown f.type) r.fields
      → All (λ row. length row ≡ length r.fields) r.rows
      → (types : Items) × (rows : List Value) × (skip_get (codes "HEADER") (dbresult2json atof r)
          ≡ some (array (array_of (map (λ f. string f.name) r.fields))))
        × (skip_get (codes "TYPES") (dbresult2json atof r) ≡ some (array types))
        × (skip_get (codes "ROWS") (dbresult2json atof r) ≡ some (array (array_of rows)))
        × RowsAreTyped types (array_of rows)
        × (length rows ≡ length r.rows)
  unfolding dbresult2json rows_of skip_get skip_put bytes_lt bytes_eq
  dbresult2json-RowsAreTyped r h e =
      (_, _, refl, refl, refl, rows_of-RowsAreTyped r.fields r.rows h e, length-map r.rows _)
