-- ===== src/Db/Batch.antt =====
-- db/dbaccess.c: `dbprocess_result`, and the loop of `dbexecute` over the results of a query.
pub mod Shape
use dbslayer.Prelude.{ℕ, Bool, true, false, List, [], ◌∷◌, ◌++◌, Bytes, codes, Option, none, some}
use dbslayer.Json.Value.{ℤ, Value, object, array, long, boolean, no_fields, skip_put}
use dbslayer.Db.Table.{Result, array_of, dbresult2json}

-- what `mysql_store_result` gives: a result, none for a statement that has none (with the number of rows and
-- the id that go with it), or an error
pub data Stored : Type 0 where
  stored : Result → Stored
  affected : ℤ → ℤ → Stored
  store_failed : Stored

-- the results of a query, with what `mysql_next_result` says behind each: that no more follow, that one
-- follows, or an error
pub data Batch : Type 0 where
  last : Stored → Batch
  more : Stored → Batch → Batch
  broken : Stored → Batch

-- `sql_result` and `all_result`; the array is array_append to in place
pub record Results : Type 0 where
  pub sql_result : Option Value
  pub all_result : Option (List Value)

abbrev pub no_results : Results
no_results = record { sql_result = none; all_result = none }

abbrev pub dbaffected2json : ℤ → ℤ → Value
dbaffected2json rows id = object (
    skip_put (codes "INSERT_ID") (long id) (
      skip_put (codes "AFFECTED_ROWS") (long rows)
        (skip_put (codes "SUCCESS") (boolean true) no_fields)))

-- the array with the first result, made when there is a result and no array
abbrev pub promoted : Option Value → Option (List Value) → Option (List Value)
promoted (some v) none = some (v ∷ [])
promoted none none = none
promoted sql_result (some vs) = some vs

abbrev pub array_append : Option (List Value) → Value → Option (List Value)
array_append none v = none
array_append (some vs) v = some (vs ++ v ∷ [])

abbrev pub with_affected : Value → Results → Results
with_affected v acc = record {
  sql_result = some v;
  all_result = array_append (promoted acc.sql_result acc.all_result) v;
}

abbrev pub with_stored : Value → Option Value → Option (List Value) → Results
with_stored v none all = record { sql_result = some v; all_result = all }
with_stored v (some first) all = record {
  sql_result = some first;
  all_result = array_append (promoted (some first) all) v;
}

-- what the loop leaves, and if an error is reported
abbrev pub Looped : Type 0
Looped = Results × Bool

-- the break on an error of `dbprocess_result`
abbrev pub unless_failed : Results → Option Results → (Results → Looped) → Looped
unless_failed acc none next = (acc, true)
unless_failed acc (some results) next = next results

module _ (atof : Bytes → ℕ) where
  -- `none` for -1
  unfoldable pub dbprocess_result : Stored → Results → Option Results
  dbprocess_result store_failed acc = none
  dbprocess_result (affected rows id) acc = some (with_affected (dbaffected2json rows id) acc)
  dbprocess_result (stored r) acc =
      some (with_stored (object (dbresult2json atof r)) acc.sql_result acc.all_result)

  unfoldable pub results_loop : Batch → Results → Looped
  unfolding dbprocess_result
  results_loop (last s) acc =
      unless_failed acc (dbprocess_result s acc) (λ results. (results, false))
  results_loop (broken s) acc =
      unless_failed acc (dbprocess_result s acc) (λ results. (results, true))
  results_loop (more s rest) acc = unless_failed acc (dbprocess_result s acc) (results_loop rest)

-- what stands under RESULT: the array, or the only result
abbrev pub published : Option (List Value) → Option Value → Option Value
published (some vs) sql_result = some (array (array_of vs))
published none sql_result = sql_result
