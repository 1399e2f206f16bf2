-- ===== src/Db/Execute/Results.antt =====
-- db/dbaccess.c: the answer of `dbexecute` to a query that MySQL takes.
use dbslayer.Prelude.{
  ℕ, Bool, true, false, Bool-cases, inl, inr, List, [], ◌∷◌, Bytes, codes, bytes_eq, ◌≡◌, refl, sym,
  subst, ◌∙◌, ◌⊎◌, if◌then◌else◌, Option, none, some, All,
}
use dbslayer.Json.Value.{Value, Fields, string, no_fields, field, skip_put, skip_get, bytes_lt}
use dbslayer.Json.Order.{skip_get-skip_put}
use dbslayer.Db.Batch.{Batch, no_results, results_loop, published, Looped}
use dbslayer.Db.Batch.Shape.{bare_or_array, reports, fails, results_loop-bare_or_array}
use dbslayer.Db.Handle.{Conn, mysql_query, Client, State, call}
use dbslayer.Db.Execute.{
  named_in, db_flag_set, put_if, with_server, with_result, Answered, selected, select,
  db_report_error, dbprocess_metadata, report_if, with_results, or_hint, finish, dbexecute,
}

skip_get-put_if :
    (name key : Bytes) (b : Bool) (v : Value) (out : Fields)
    → bytes_eq key name ≡ false
    → skip_get name (put_if b key v out) ≡ skip_get name out
skip_get-put_if name key false v out h = refl
skip_get-put_if name key true v out h = skip_get-skip_put name key v out ∙ rw h refl

-- the three fields that the answer is about
record Tells (result server error : Option Value) (out : Fields) : Type 0 where
  pub result_eq : skip_get (codes "RESULT") out ≡ result
  pub server_eq : skip_get (codes "SERVER") out ≡ server
  pub error_eq : skip_get (codes "MYSQL_ERROR") out ≡ error

nothing-Tells : Tells none none none no_fields
unfolding skip_get
nothing-Tells = record { result_eq = refl; server_eq = refl; error_eq = refl }

with_result-Tells :
    (v server error : Option Value) (out : Fields)
    → Tells none server error out
    → Tells v server error (with_result v out)
unfolding bytes_eq
with_result-Tells none server error out h = h
with_result-Tells (some v) server error out h = record {
  result_eq = skip_get-skip_put (codes "RESULT") (codes "RESULT") v out;
  server_eq = skip_get-skip_put (codes "SERVER") (codes "RESULT") v out ∙ h.server_eq;
  error_eq = skip_get-skip_put (codes "MYSQL_ERROR") (codes "RESULT") v out ∙ h.error_eq;
}

-- SERVER is not there yet, or is the right one
with_server-Tells :
    (v error : Option Value) (name : Bytes) (out : Fields)
    → Tells v none error out ⊎ Tells v (some (string name)) error out
    → Tells v (some (string name)) error (with_server name out)
unfolding bytes_eq
with_server-Tells v error name out (inr h) = rw h.server_eq h
with_server-Tells v error name out (inl h) = rw h.server_eq (record {
  result_eq = skip_get-skip_put (codes "RESULT") (codes "SERVER") (string name) out ∙ h.result_eq;
  server_eq = skip_get-skip_put (codes "SERVER") (codes "SERVER") (string name) out;
  error_eq =
      skip_get-skip_put (codes "MYSQL_ERROR") (codes "SERVER") (string name) out ∙ h.error_eq;
})

abbrev pub metadata_keys : List Bytes
metadata_keys =
    codes "SLAYER_HELP"
    ∷ codes "SERVER_NAME"
    ∷ codes "SLAYER_DEBUG_RETURN_INPUT"
    ∷ codes "CLIENT_VERSION"
    ∷ codes "SERVER_VERSION"
    ∷ codes "HOST_INFO"
    ∷ codes "CLIENT_INFO"
    ∷ codes "STAT"
    ∷ []

or_hint_lem :
    (atof : Bytes → ℕ) (client : Client) (key : Bytes) (v : Value) (out : Fields)
    → skip_get key out ≡ some v
    → or_hint atof client out ≡ out
unfolding skip_get
or_hint_lem atof client key v no_fields h = cc
or_hint_lem atof client key v (field k w fs) h = refl

module _ (atof : Bytes → ℕ) (client : Client) where
  reported-Tells :
      (db : Conn) (name : Bytes) (injson : Value) (s : State)
      → Tells none
          (some (string name))
          (some (string (client.error s.calls db)))
          (db_report_error atof client no_fields db name injson s).0
  unfolding db_report_error skip_put skip_get bytes_lt bytes_eq
  reported-Tells db name injson s =
      elim (Bool-cases (db_flag_set injson (codes "ROLLBACK_ON_ERROR"))) [
        | inl e ↦ rw e (record { result_eq = refl; server_eq = refl; error_eq = refl })
        | inr e ↦ rw e (record { result_eq = refl; server_eq = refl; error_eq = refl })
      ]

  -- the error that is told, if any
  abbrev error_told : Bool → Conn → State → Option Value
  error_told failed db s = if failed then some (string (client.error s.calls db)) else none

  with_results-Tells :
      (end : Looped) (db : Conn) (name : Bytes) (injson : Value) (s : State)
      → Tells
          (published end.0.all_result end.0.sql_result)
          (some (string name))
          (error_told end.1 db s)
          (with_server name (
            with_result
              (published end.0.all_result end.0.sql_result)
              (report_if atof client end.1 no_fields db name injson s).0))
  with_results-Tells (results, true) db name injson s =
      let v = published results.all_result results.sql_result in
      with_server-Tells v _ name _
        (inr (with_result-Tells v _ _ _ (reported-Tells db name injson s)))
  with_results-Tells (results, false) db name injson s =
      let v = published results.all_result results.sql_result in
      with_server-Tells v _ name _ (inl (with_result-Tells v none none no_fields nothing-Tells))

  skip_get-dbprocess_metadata :
      (key : Bytes) (db : Conn) (injson : Value) (out : Fields) (name : Bytes) (s : State)
      → All (λ k. bytes_eq k key ≡ false) metadata_keys
      → skip_get key (dbprocess_metadata atof client db injson out name s) ≡ skip_get key out
  unfolding dbprocess_metadata
  skip_get-dbprocess_metadata key db injson out name s
        (h1, (h2, (h3, (h4, (h5, (h6, (h7, (h8, h)))))))) =
      skip_get-put_if key _ _ _ _ h1
      ∙ skip_get-put_if key _ _ _ _ h2
      ∙ skip_get-put_if key _ _ _ _ h3
      ∙ skip_get-put_if key _ _ _ _ h4
      ∙ skip_get-put_if key _ _ _ _ h5
      ∙ skip_get-put_if key _ _ _ _ h6
      ∙ skip_get-put_if key _ _ _ _ h7
      ∙ skip_get-put_if key _ _ _ _ h8

  dbprocess_metadata-Tells :
      (result error : Option Value) (db : Conn) (injson : Value) (out : Fields) (name : Bytes)
      (s : State)
      → Tells result (some (string name)) error out
      → Tells result
          (some (string name))
          error
          (or_hint atof client (dbprocess_metadata atof client db injson out name s))
  unfolding bytes_eq
  dbprocess_metadata-Tells result error db injson out name s h =
      let server =
        skip_get-dbprocess_metadata (codes "SERVER") db injson out name s
          (refl, (refl, (refl, (refl, (refl, (refl, (refl, (refl, tt))))))))
        ∙ h.server_eq in
      subst (Tells result (some (string name)) error)
        (sym (or_hint_lem atof client (codes "SERVER") _ _ server))
        (record {
          result_eq =
              skip_get-dbprocess_metadata (codes "RESULT") db injson out name s
                (refl, (refl, (refl, (refl, (refl, (refl, (refl, (refl, tt))))))))
              ∙ h.result_eq;
          server_eq = server;
          error_eq =
              skip_get-dbprocess_metadata (codes "MYSQL_ERROR") db injson out name s
                (refl, (refl, (refl, (refl, (refl, (refl, (refl, (refl, tt))))))))
              ∙ h.error_eq;
        })

  finish-Tells :
      (batch : Batch) (db : Conn) (name : Bytes) (injson : Value) (s : State)
      → Tells
          (bare_or_array (reports atof batch))
          (some (string name))
          (error_told (fails batch) db s)
          (finish atof client injson
            (with_results atof client (results_loop atof batch no_results) db name injson s)).0
  finish-Tells batch db name injson s =
      let end = results_loop atof batch no_results in
      let shape = results_loop-bare_or_array atof batch in
      let answer : Answered =
        finish atof client injson (with_results atof client end db name injson s) in
      let told =
        dbprocess_metadata-Tells _ _ db injson _ name _ (with_results-Tells end db name injson s) in
      subst (λ v. Tells v (some (string name)) (error_told (fails batch) db s) answer.0) shape.0
        (subst
          (λ b.
            Tells (published end.0.all_result end.0.sql_result) (some (string name))
              (error_told b db s) answer.0)
          shape.1 told)

  -- The answer to a request with a statement, where a connection stands for its server and MySQL takes the
  -- query: RESULT holds the reports of the statements before the first failure (nothing for none, a bare value
  -- for one, an array in their order for more), SERVER the name of the server, and MYSQL_ERROR the error of the
  -- statement that fails, just when one fails.
  pub dbexecute-bare_or_array :
      (injson : Value) (s : State) (db : Conn) (name sql : Bytes) (batch : Batch)
      → select injson s.db_handle ≡ selected db name
      → named_in (codes "SQL") injson ≡ some (string sql)
      → client.query s.calls db sql ≡ some batch
      → (skip_get (codes "RESULT") (dbexecute atof client injson s).0
          ≡ bare_or_array (reports atof batch))
        × (skip_get (codes "SERVER") (dbexecute atof client injson s).0 ≡ some (string name))
        × (skip_get (codes "MYSQL_ERROR") (dbexecute atof client injson s).0 ≡ (
            if fails batch
            then some (string (client.error (mysql_query db sql ∷ s.calls) db))
            else none))
  unfolding dbexecute
  dbexecute-bare_or_array injson s db name sql batch chosen asked answered =
      let told = finish-Tells batch db name injson (call (mysql_query db sql) s) in
      rw chosen (rw asked (rw answered (told.result_eq, told.server_eq, told.error_eq)))
