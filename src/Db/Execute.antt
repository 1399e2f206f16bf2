-- ===== src/Db/Execute.antt =====
-- db/dbaccess.c: `dbexecute` with what it calls. A JSON object is its fields; the call of `mysql_next_result`
-- behind the last result is not told apart from those before it.
mod Search
pub mod Sessions
pub mod Results
use dbslayer.Prelude.{
  ℕ, Bool, true, false, not, ◌&&◌, ◌||◌, List, [], ◌∷◌, Bytes, codes, get_or, ◌==◌, if◌then◌else◌,
  Option, none, some,
}
use dbslayer.Json.Value.{
  ℤ, pos, Value, Fields, object, array, string, long, longlong, double, boolean, null, no_fields,
  field, skip_put, skip_get,
}
use dbslayer.Db.Batch.{Batch, no_results, results_loop, published, Looped}
use dbslayer.Db.Handle.{
  Conn, MysqlCall, mysql_query, mysql_rollback, Client, Handle, State, Attached, skip_lookup, call,
  db_handle_reattach,
}

-- `json_skip_get(injson->value.object, ...)` behind the test of the type
abbrev pub named_in : Bytes → Value → Option Value
named_in key (object fields) = skip_get key fields
named_in key v = none

abbrev pub is_true : Option Value → Bool
is_true (some (boolean b)) = b
is_true v = false

unfoldable pub db_flag_set : Value → Bytes → Bool
db_flag_set injson key = is_true (named_in key injson)

-- a test against NULL
abbrev pub is_found : Option Value → Bool
is_found none = false
is_found (some v) = true

abbrev pub put_if : Bool → Bytes → Value → Fields → Fields
put_if true key v out = skip_put key v out
put_if false key v out = out

-- SERVER, unless it is there
abbrev pub with_server : Bytes → Fields → Fields
with_server name out =
    put_if (not (is_found (skip_get (codes "SERVER") out))) (codes "SERVER") (string name) out

-- RESULT, when there is a result
abbrev pub with_result : Option Value → Fields → Fields
with_result none out = out
with_result (some v) out = skip_put (codes "RESULT") v out

-- an answer, with the state behind it
abbrev pub Answered : Type 0
Answered = Fields × State

-- the texts behind SLAYER_HELP
abbrev pub help : List (Bytes × Bytes)
help =
    (
      codes "SQL",
      codes "in(string)[sql statement to execute] : out()eturns results in RESULTS node",
    )
    ∷ (codes "STAT", codes "in(boolean) : out(string) result of mysql_stat()")
    ∷ (codes "CLIENT_INFO", codes "in(boolean) : out(string) result of mysql_get_client_info()")
    ∷ (codes "HOST_INFO", codes "in(boolean) : out(string) result of mysql_get_host_info()")
    ∷ (codes "SERVER_VERSION", codes "in(boolean) : out(long) result of mysql_server_version()")
    ∷ (codes "CLIENT_VERSION", codes "in(boolean) : out(long) result of mysql_client_version()")
    ∷ (codes "SLAYER_HELP", codes "in(boolean) : true ? returns this result")
    ∷ (codes "SLAYER_DEBUG_RETURN_INPUT", codes "in(boolean) : true ? returns this result")
    ∷ (
      codes "SERVER_NAME",
      codes "in(boolean) : true ? returns stanza from the -s option that was used",
    )
    ∷ []

abbrev pub put_texts : List (Bytes × Bytes) → Fields → Fields
put_texts [] out = out
put_texts ((key, text) ∷ texts) out = put_texts texts (skip_put key (string text) out)

-- what the first part of `dbexecute` finds: an answer, or a connection and the name of its server
pub data Selected : Type 0 where
  refused : Fields → Selected
  selected : Conn → Bytes → Selected

abbrev pub named_selected : Bytes → Conn → Selected
named_selected name none = refused (
    skip_put (codes "SERVER") (string name) (
      skip_put (codes "ERROR")
        (string (codes "Couldn't find the database handle for SERVER requested")) no_fields))
named_selected name (some c) = selected (some c) name

-- the name of the server that a handle without names uses
abbrev pub offset_server : Handle → Bytes
offset_server h = get_or h.server h.server_offset []

-- the branches on SERVER and `dblookup`
abbrev pub select_in : Option Value → Option (List (Bytes × Conn)) → Handle → Selected
select_in (some (string name)) (some entries) h = named_selected name (skip_lookup name entries)
select_in (some (string name)) none h = refused (
    skip_put (codes "ERROR")
      (string (
        codes
          "Provided a SERVER argument but dbslayer is not configure for named server access - perhaps you want the -m config option"))
      no_fields)
select_in v (some entries) h = refused (
    skip_put (codes "ERROR")
      (string (
        codes
          "dbslayer is configured to take a SERVER argument - perhaps you want the -s config option"))
      no_fields)
select_in v none h = selected h.db (offset_server h)

unfoldable pub select : Value → Handle → Selected
unfolding skip_lookup
select injson h = select_in (named_in (codes "SERVER") injson) h.dblookup h

-- CR_SERVER_LOST, CR_SERVER_GONE_ERROR and CR_SERVER_LOST_EXTENDED
abbrev pub is_lost : ℕ → Bool
is_lost errno = errno == 2013 || errno == 2006 || errno == 2055

-- `dbhandle->dblookup == NULL ? dbhandle->server[dbhandle->server_offset] : dbserver_name`
abbrev pub current_name : Option (List (Bytes × Conn)) → Handle → Bytes → Bytes
current_name none h name = offset_server h
current_name (some entries) h name = name

abbrev pub current_db : Option (List (Bytes × Conn)) → Handle → Bytes → Conn
current_db none h name = h.db
current_db (some entries) h name = skip_lookup name entries

-- the end of the part for SQL: `return out`, or on with `db` and `dbserver_name`
pub data Ran : Type 0 where
  returned : Fields → State → Ran
  went_on : Fields → Conn → Bytes → State → Ran

module _ (atof : Bytes → ℕ) (client : Client) where
  -- the rollback that the caller asks for
  abbrev pub rolled_back : Bool → Conn → Fields → State → Answered
  rolled_back false db out s = (out, s)
  rolled_back true db out s = (
    skip_put (codes "ROLLBACK_ON_ERROR_SUCCESS") (boolean (client.rolls_back s.calls db))
        (skip_put (codes "ROLLBACK_ON_ERROR") (boolean true) out),
    call (mysql_rollback db) s,
  )

  abbrev pub reported_error : Bool → Fields → Conn → Bytes → Value → State → Answered
  reported_error true out db name injson s = (out, s)
  reported_error false out db name injson s =
      rolled_back (db_flag_set injson (codes "ROLLBACK_ON_ERROR")) db
        (with_server name (
          skip_put (codes "MYSQL_ERRNO") (long (pos (client.errno s.calls db))) (
            skip_put (codes "MYSQL_ERROR") (string (client.error s.calls db))
              (skip_put (codes "SUCCESS") (boolean false) out))))
        s

  -- nothing when MYSQL_ERROR is there
  unfoldable pub db_report_error : Fields → Conn → Bytes → Value → State → Answered
  unfolding db_flag_set
  db_report_error out db name injson s =
      reported_error (is_found (skip_get (codes "MYSQL_ERROR") out)) out db name injson s

  unfoldable pub dbprocess_metadata : Conn → Value → Fields → Bytes → State → Fields
  unfolding db_flag_set
  dbprocess_metadata db injson out name s =
      let flag = λ (key : Bytes). put_if (db_flag_set injson key) key in
      flag (codes "SLAYER_HELP") (object (put_texts help no_fields)) (
        flag (codes "SERVER_NAME") (string name) (
          flag (codes "SLAYER_DEBUG_RETURN_INPUT") injson (
            flag (codes "CLIENT_VERSION") (long client.client_version) (
              flag (codes "SERVER_VERSION") (long (client.server_version s.calls db)) (
                flag (codes "HOST_INFO") (string (client.host_info s.calls db)) (
                  flag (codes "CLIENT_INFO") (string client.client_info)
                    (flag (codes "STAT") (string (client.stat s.calls db)) out)))))))

  abbrev pub report_if : Bool → Fields → Conn → Bytes → Value → State → Answered
  report_if false out db name injson s = (out, s)
  report_if true out db name injson s = db_report_error out db name injson s

  -- the answer with the results of the loop
  abbrev pub with_results : Looped → Conn → Bytes → Value → State → Ran
  with_results end db name injson s =
      let told = report_if end.1 no_fields db name injson s in
      went_on (with_server name (with_result (published end.0.all_result end.0.sql_result) told.0))
        db name told.1

  abbrev pub return_error : Conn → Bytes → Value → State → Ran
  return_error db name injson s =
      let told =
        db_report_error no_fields db (current_name s.db_handle.dblookup s.db_handle name) injson
          s in
      returned told.0 told.1

  -- the test of the second `mysql_query`
  abbrev pub if_queried : Option Batch → Conn → Bytes → Value → State → Ran
  if_queried none db name injson s = return_error db name injson s
  if_queried (some batch) db name injson s =
      with_results (results_loop atof batch no_results) db name injson s

  abbrev pub send_query : Conn → Bytes → State → Option Batch × State
  send_query db sql s = (client.query s.calls db sql, call (mysql_query db sql) s)

  abbrev pub requeried : Option Batch × State → Conn → Bytes → Value → Ran
  requeried (answer, s) db name injson = if_queried answer db name injson s

  -- behind `db_handle_reattach`; `db` is the connection from before
  abbrev pub if_attached : Attached → Conn → Bytes → Bytes → Value → Ran
  if_attached (false, s) db sql name injson = return_error db name injson s
  if_attached (true, s) db sql name injson =
      let again = current_db s.db_handle.dblookup s.db_handle name in
      requeried (send_query again sql s) again name injson

  abbrev pub if_lost : Bool → Conn → Bytes → Bytes → Value → State → Ran
  if_lost false db sql name injson s = return_error db name injson s
  if_lost true db sql name injson s =
      if_attached (db_handle_reattach client name s) db sql name injson

  -- the test of the first `mysql_query`
  abbrev pub first_queried : Option Batch × State → Conn → Bytes → Bytes → Value → Ran
  first_queried (none, s) db sql name injson =
      if_lost (is_lost (client.errno s.calls db)) db sql name injson s
  first_queried (some batch, s) db sql name injson =
      with_results (results_loop atof batch no_results) db name injson s

  abbrev pub run_sql : Option Value → Conn → Bytes → Value → State → Ran
  run_sql (some (string sql)) db name injson s =
      first_queried (send_query db sql s) db sql name injson
  run_sql v db name injson s = went_on no_fields db name s

  -- an answer without fields gets a hint
  abbrev pub or_hint : Fields → Fields
  or_hint no_fields =
      skip_put (codes "ERROR") (string (codes "TRY {\"SLAYER_HELP\":true } ")) no_fields
  or_hint (field key v out) = field key v out

  abbrev pub finish : Value → Ran → Answered
  finish injson (returned out s) = (out, s)
  finish injson (went_on out db name s) = (or_hint (dbprocess_metadata db injson out name s), s)

  abbrev pub execute_on : Selected → Value → State → Answered
  execute_on (refused out) injson s = (out, s)
  execute_on (selected db name) injson s =
      finish injson (run_sql (named_in (codes "SQL") injson) db name injson s)

  unfoldable pub dbexecute : Value → State → Answered
  unfolding select db_report_error dbprocess_metadata
  dbexecute injson s = execute_on (select injson s.db_handle) injson s
