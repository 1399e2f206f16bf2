-- ===== src/Db/Execute/Sessions.antt =====
-- db/dbaccess.c: what `dbexecute` calls of MySQL.
use dbslayer.Prelude.{
  ℕ, Bool, true, false, Bool-cases, inl, inr, List, ◌∷◌, Bytes, codes, ◌≡◌, refl, sym, ap₂, subst,
  Option, none, some,
}
use dbslayer.Json.Value.{Value, Fields, string}
use dbslayer.Db.Batch.{Batch}
use dbslayer.Db.Handle.{
  Conn, MysqlCall, mysql_real_connect, mysql_query, mysql_rollback, Client, State, Attached, call,
  db_handle_reattach,
}
use dbslayer.Db.Execute.{
  named_in, is_lost, current_db, selected, refused, Selected, select, Ran, returned, went_on,
  rolled_back, reported_error, db_report_error, if_queried, if_attached, first_queried, run_sql,
  finish, execute_on, dbexecute, report_if,
}
use dbslayer.Db.Execute.Search.{Attempting, still, Searched, db_handle_reattach-Searched}

-- at most a rollback follows
pub data Ended (calls : List MysqlCall) : List MysqlCall → Type 0 where
  as_is : Ended calls calls
  undone : (db : Conn) → Ended calls (mysql_rollback db ∷ calls)

-- The calls of one request: none; a query that succeeds; one that fails for a reason that is not a lost
-- connection; one that loses the connection, behind which only servers are tried; or one that loses the
-- connection, behind which a server accepts a connection, and the same query is sent on that one at once.
pub data Session (client : Client) (start : List MysqlCall) : List MysqlCall → Type 0 where
  quiet : Session client start start
  answered :
      (db : Conn) (sql : Bytes) (batch : Batch) {after : List MysqlCall}
      → client.query start db sql ≡ some batch
      → Ended (mysql_query db sql ∷ start) after
      → Session client start after
  rejected :
      (db : Conn) (sql : Bytes) {after : List MysqlCall}
      → client.query start db sql ≡ none
      → is_lost (client.errno (mysql_query db sql ∷ start) db) ≡ false
      → Ended (mysql_query db sql ∷ start) after
      → Session client start after
  gone :
      (db : Conn) (sql : Bytes) {tried after : List MysqlCall}
      → client.query start db sql ≡ none
      → is_lost (client.errno (mysql_query db sql ∷ start) db) ≡ true
      → Attempting (mysql_query db sql ∷ start) tried
      → Ended tried after
      → Session client start after
  replayed :
      (db again : Conn) (sql group : Bytes) (user pass : Option Bytes)
      {tried after : List MysqlCall}
      → client.query start db sql ≡ none
      → is_lost (client.errno (mysql_query db sql ∷ start) db) ≡ true
      → Attempting (mysql_query db sql ∷ start) tried
      → client.connects tried again group ≡ true
      → Ended (mysql_query again sql ∷ mysql_real_connect again group user pass ∷ tried) after
      → Session client start after

from_Ended :
    {calls others after : List MysqlCall} → calls ≡ others → Ended calls after → Ended others after
from_Ended {after = after} e = subst (λ calls. Ended calls after) e

-- the calls of an outcome of the part for SQL
abbrev calls_of : Ran → List MysqlCall
calls_of (returned out s) = s.calls
calls_of (went_on out db name s) = s.calls

module _ (atof : Bytes → ℕ) (client : Client) where
  rolled_back-Ended :
      (asked : Bool) (db : Conn) (out : Fields) (s : State)
      → Ended s.calls (rolled_back atof client asked db out s).1.calls
  rolled_back-Ended false db out s = as_is
  rolled_back-Ended true db out s = undone db

  reported_error-Ended :
      (told : Bool) (out : Fields) (db : Conn) (name : Bytes) (injson : Value) (s : State)
      → Ended s.calls (reported_error atof client told out db name injson s).1.calls
  reported_error-Ended true out db name injson s = as_is
  reported_error-Ended false out db name injson s = rolled_back-Ended _ db _ s

  db_report_error-Ended :
      (out : Fields) (db : Conn) (name : Bytes) (injson : Value) (s : State)
      → Ended s.calls (db_report_error atof client out db name injson s).1.calls
  unfolding db_report_error
  db_report_error-Ended out db name injson s = reported_error-Ended _ out db name injson s

  report_if-Ended :
      (failed : Bool) (out : Fields) (db : Conn) (name : Bytes) (injson : Value) (s : State)
      → Ended s.calls (report_if atof client failed out db name injson s).1.calls
  report_if-Ended false out db name injson s = as_is
  report_if-Ended true out db name injson s = db_report_error-Ended out db name injson s

  if_queried-Ended :
      (answer : Option Batch) (db : Conn) (name : Bytes) (injson : Value) (s : State)
      → Ended s.calls (calls_of (if_queried atof client answer db name injson s))
  if_queried-Ended none db name injson s = db_report_error-Ended _ db _ injson s
  if_queried-Ended (some batch) db name injson s = report_if-Ended _ _ db name injson s

  if_attached-Session :
      (start : List MysqlCall) (db : Conn) (sql name : Bytes) (injson : Value) (r : Attached)
      → client.query start db sql ≡ none
      → is_lost (client.errno (mysql_query db sql ∷ start) db) ≡ true
      → Searched client (mysql_query db sql ∷ start) name r
      → Session client start (calls_of (if_attached atof client r db sql name injson))
  if_attached-Session start db sql name injson (false, s) n l h =
      gone db sql n l h (db_report_error-Ended _ db _ injson s)
  if_attached-Session start db sql name injson (true, s) n l h =
      let again = current_db s.db_handle.dblookup s.db_handle name in
      let answer = client.query s.calls again sql in
      let end = if_queried-Ended answer again name injson (call (mysql_query again sql) s) in
      replayed db h.again sql h.group h.user h.pass n l h.attempting h.accepted
        (from_Ended (ap₂ (λ c calls. mysql_query c sql ∷ calls) h.db_eq h.calls_eq) end)

  first_queried-Session :
      (answer : Option Batch) (db : Conn) (sql name : Bytes) (injson : Value) (s : State)
      → client.query s.calls db sql ≡ answer
      → Session client s.calls (
          calls_of
            (first_queried atof client (answer, call (mysql_query db sql) s) db sql name injson))
  first_queried-Session (some batch) db sql name injson s e =
      answered db sql batch e (report_if-Ended _ _ db name injson _)
  first_queried-Session none db sql name injson s e =
      let asked = call (mysql_query db sql) s in
      elim (Bool-cases (is_lost (client.errno asked.calls db))) [
        | inl l ↦ rw l (
            if_attached-Session s.calls db sql name injson (db_handle_reattach client name asked) e
              l (db_handle_reattach-Searched client name asked still))
        | inr l ↦ rw l (rejected db sql e l (db_report_error-Ended _ db _ injson asked))
      ]

  run_sql-Session :
      (sql : Option Value) (db : Conn) (name : Bytes) (injson : Value) (s : State)
      → Session client s.calls (calls_of (run_sql atof client sql db name injson s))
  run_sql-Session (some (string sql)) db name injson s =
      first_queried-Session _ db sql name injson s refl
  run_sql-Session none db name injson s = quiet
  run_sql-Session (some v) db name injson s = quiet

  finish-calls :
      (injson : Value) (ran : Ran) → (finish atof client injson ran).1.calls ≡ calls_of ran
  finish-calls injson (returned out s) = refl
  finish-calls injson (went_on out db name s) = refl

  execute_on-Session :
      (chosen : Selected) (injson : Value) (s : State)
      → Session client s.calls (execute_on atof client chosen injson s).1.calls
  execute_on-Session (refused out) injson s = quiet
  execute_on-Session (selected db name) injson s =
      let sql = named_in (codes "SQL") injson in
      subst (Session client s.calls)
        (sym (finish-calls injson (run_sql atof client sql db name injson s)))
        (run_sql-Session sql db name injson s)

  -- One request makes the calls of a Session, whatever the request, the handle and the answers of MySQL are. A
  -- statement is sent again only when the first query fails with a lost connection and a server accepts a new
  -- connection: it is then sent once more, the same, on that connection; otherwise it is sent at most once. A rollback comes last.
  pub dbexecute-Session :
      (injson : Value) (s : State) → Session client s.calls (dbexecute atof client injson s).1.calls
  unfolding dbexecute
  dbexecute-Session injson s = execute_on-Session (select injson s.db_handle) injson s
