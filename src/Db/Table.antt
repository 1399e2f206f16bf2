-- ===== src/Db/Table.antt =====
-- db/dbaccess.c: `dbresult2json`. `MYSQL_RES` is what the MySQL client gives: the fields of a result and
-- the texts of its rows. `atof` is an argument; MySQL writes integers without a space or a plus in
-- front.
mod Typed
mod Tests
use dbslayer.Prelude.{
  ℕ, Bool, true, false, List, [], ◌∷◌, ◌++◌, Bytes, codes, ◌==◌, if◌then◌else◌, Option, none, some,
  map,
}
use dbslayer.Json.Value.{
  ℤ, pos, Value, Items, Fields, object, array, string, long, longlong, double, null, no_items, item,
  no_fields, skip_put,
}
use dbslayer.Json.Scan.{strtol}

-- `enum_field_types`; `unknown_type` stands for the types that `dbresult2json` does not name
pub data FieldType : Type 0 where
  tiny short long_type int24 decimal newdecimal double_type float longlong_type bit : FieldType
  timestamp date time datetime year string_type var_string newdate varchar : FieldType
  blob tiny_blob medium_blob long_blob set_type enum_type geometry null_type : FieldType
  unknown_type : FieldType

pub record Field : Type 0 where
  pub name : Bytes
  pub type : FieldType
  pub charsetnr : ℕ

-- a row holds NULL or a text for each field
pub record Result : Type 0 where
  pub fields : List Field
  pub rows : List (List (Option Bytes))

-- the name of a blob's type
abbrev pub blob_name : ℕ → Bytes → Bytes
blob_name charsetnr name = if charsetnr == 63 then codes "MYSQL_TYPE_TEXT" else name

-- the first `switch`
abbrev pub type_name : FieldType → ℕ → Bytes
type_name tiny n = codes "MYSQL_TYPE_TINY"
type_name short n = codes "MYSQL_TYPE_SHORT"
type_name long_type n = codes "MYSQL_TYPE_LONG"
type_name int24 n = codes "MYSQL_TYPE_INT24"
type_name decimal n = codes "MYSQL_TYPE_DECIMAL"
type_name newdecimal n = codes "MYSQL_TYPE_NEWDECIMAL"
type_name double_type n = codes "MYSQL_TYPE_DOUBLE"
type_name float n = codes "MYSQL_TYPE_FLOAT"
type_name longlong_type n = codes "MYSQL_TYPE_LONGLONG"
type_name bit n = codes "MYSQL_TYPE_BIT"
type_name timestamp n = codes "MYSQL_TYPE_TIMESTAMP"
type_name date n = codes "MYSQL_TYPE_DATE"
type_name time n = codes "MYSQL_TYPE_TIME"
type_name datetime n = codes "MYSQL_TYPE_DATETIME"
type_name year n = codes "MYSQL_TYPE_YEAR"
type_name string_type n = codes "MYSQL_TYPE_STRING"
type_name var_string n = codes "MYSQL_TYPE_VAR_STRING"
type_name newdate n = codes "MYSQL_TYPE_NEWDATE"
type_name varchar n = codes "MYSQL_TYPE_VARCHAR"
type_name blob n = blob_name n (codes "MYSQL_TYPE_BLOB")
type_name tiny_blob n = blob_name n (codes "MYSQL_TYPE_TINY_BLOB")
type_name medium_blob n = blob_name n (codes "MYSQL_TYPE_MEDIUM_BLOB")
type_name long_blob n = blob_name n (codes "MYSQL_TYPE_LONG_BLOB")
type_name set_type n = codes "MYSQL_TYPE_SET"
type_name enum_type n = codes "MYSQL_TYPE_ENUM"
type_name geometry n = codes "MYSQL_TYPE_GEOMETRY"
type_name null_type n = codes "MYSQL_TYPE_NULL"
type_name unknown_type n = codes "MYSQL_TYPE_UNKNOWN"

abbrev pub number_or_zero : Option (ℤ × Bytes) → ℤ
number_or_zero none = pos 0
number_or_zero (some (n, rest)) = n

-- `atol` and `strtoll`
abbrev pub atol : Bytes → ℤ
atol text = number_or_zero (strtol text)

-- `myrow[i] ? ... : json_null_create(mpool)`
abbrev pub or_null : (Bytes → Value) → Option Bytes → Value
or_null make none = null
or_null make (some text) = make text

abbrev pub array_of : List Value → Items
array_of [] = no_items
array_of (v ∷ vs) = item v (array_of vs)

module _ (atof : Bytes → ℕ) where
  abbrev pub long_cell : Option Bytes → Value
  long_cell = or_null (λ text. long (atol text))

  abbrev pub longlong_cell : Option Bytes → Value
  longlong_cell = or_null (λ text. longlong (atol text))

  abbrev pub double_cell : Option Bytes → Value
  double_cell = or_null (λ text. double (atof text))

  abbrev pub string_cell : Option Bytes → Value
  string_cell = or_null string

  abbrev pub blob_cell : ℕ → Option Bytes → Value
  blob_cell charsetnr text = if charsetnr == 63 then null else string_cell text

  -- the second `switch`: what one round of the loop appends to a row
  abbrev pub cells_of : FieldType → ℕ → Option Bytes → List Value
  cells_of tiny n t = long_cell t ∷ []
  cells_of short n t = long_cell t ∷ []
  cells_of long_type n t = long_cell t ∷ []
  cells_of int24 n t = long_cell t ∷ []
  cells_of longlong_type n t = longlong_cell t ∷ []
  cells_of decimal n t = double_cell t ∷ []
  cells_of newdecimal n t = double_cell t ∷ []
  cells_of double_type n t = double_cell t ∷ []
  cells_of float n t = double_cell t ∷ []
  cells_of bit n t = string_cell t ∷ []
  cells_of timestamp n t = string_cell t ∷ []
  cells_of date n t = string_cell t ∷ []
  cells_of time n t = string_cell t ∷ []
  cells_of datetime n t = string_cell t ∷ []
  cells_of year n t = string_cell t ∷ []
  cells_of string_type n t = string_cell t ∷ []
  cells_of var_string n t = string_cell t ∷ []
  cells_of newdate n t = string_cell t ∷ []
  cells_of varchar n t = string_cell t ∷ []
  cells_of blob n t = blob_cell n t ∷ []
  cells_of tiny_blob n t = blob_cell n t ∷ []
  cells_of medium_blob n t = blob_cell n t ∷ []
  cells_of long_blob n t = blob_cell n t ∷ []
  cells_of set_type n t = null ∷ []
  cells_of enum_type n t = null ∷ []
  cells_of geometry n t = null ∷ []
  cells_of null_type n t = null ∷ []
  cells_of unknown_type n t = []

  -- the loop over the fields of a row, which has a text or NULL for each
  unfoldable pub row_of : List Field → List (Option Bytes) → List Value
  row_of [] texts = []
  row_of (f ∷ fs) [] = []
  row_of (f ∷ fs) (t ∷ ts) = cells_of f.type f.charsetnr t ++ row_of fs ts

  unfoldable pub dbresult2json : Result → Fields
  unfolding row_of
  dbresult2json r =
      let header = array (array_of (map (λ f. string f.name) r.fields)) in
      let types = array (array_of (map (λ f. string (type_name f.type f.charsetnr)) r.fields)) in
      let rows = array (array_of (map (λ row. array (array_of (row_of r.fields row))) r.rows)) in
      skip_put (codes "ROWS") rows
        (skip_put (codes "TYPES") types (skip_put (codes "HEADER") header no_fields))
