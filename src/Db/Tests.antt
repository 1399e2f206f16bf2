-- ===== src/Db/Tests.antt =====
-- db/dbaccess.c: requests to two servers, the first of which is gone.
use dbslayer.Prelude.{
  ℕ, suc, true, false, not, ◌||◌, [], ◌∷◌, Bytes, codes, bytes_eq, length, ◌==◌, ◌≡◌, refl,
  if◌then◌else◌, none, some, arith,
}
use dbslayer.Json.Value.{pos, Value, object, string, no_fields, field, skip_put, skip_get, bytes_lt}
use dbslayer.Db.Batch.{affected, store_failed, Batch, more, broken, dbprocess_result, results_loop}
use dbslayer.Db.Batch.Shape.{bare_or_array, reports, fails}
use dbslayer.Db.Handle.{
  Conn, mysql_init, mysql_real_connect, Client, State, attempts, reattach_any, skip_lookup,
  db_handle_reattach,
}
use dbslayer.Db.Handle.Startup.{servers_of, db_handle_init, db_handle_destroy, attach_all}
use dbslayer.Db.Handle.Cycle.{in_turn, db_handle_reattach-in_turn}
use dbslayer.Db.Handle.Kept.{open_handle, open_handle-db_handle_destroy}
use dbslayer.Db.Execute.{select, db_flag_set, db_report_error, dbprocess_metadata, dbexecute}
use dbslayer.Db.Execute.Sessions.{Session, dbexecute-Session}
use dbslayer.Db.Execute.Results.{dbexecute-bare_or_array}

abbrev atof : Bytes → ℕ
atof text = 0

-- handles count from 1; the server "a" takes the first connection only, and loses it at the first query
abbrev number_of : Conn → ℕ
number_of none = 0
number_of (some n) = n

abbrev batch : Batch
batch = more (affected (pos 2) (pos 0)) (more (affected (pos 1) (pos 9)) (broken store_failed))

abbrev client : Client
client = record {
  new_handle = λ calls. some (suc (length calls));
  connects = λ calls db group. not (bytes_eq group (codes "a")) || length calls == 1;
  query = λ calls db sql. if number_of db == 1 then none else some batch;
  rolls_back = λ calls db. true;
  error = λ calls db. codes "gone away";
  errno = λ calls db. if number_of db == 1 then 2006 else 0;
  stat = λ calls db. codes "up";
  host_info = λ calls db. codes "local";
  server_version = λ calls db. pos 50000;
  client_info = codes "5";
  client_version = pos 50000;
}

abbrev started : State
started = db_handle_init client none none (codes "a:b") 4 false []

abbrev asked : Value
asked = object (field (codes "SQL") (string (codes "x")) no_fields)

-- the query is sent again to "b", but the answer has the name of the server that is gone
server-replayed :
    skip_get (codes "SERVER") (dbexecute atof client asked started).0 ≡ some (string (codes "a"))
unfolding dbexecute db_handle_init skip_get servers_of attach_all select db_flag_set db_report_error
    dbprocess_metadata db_handle_reattach reattach_any attempts skip_lookup results_loop
    dbprocess_result skip_put bytes_lt bytes_eq
server-replayed = refl

dbexecute-Session_example :
    Session client started.calls (dbexecute atof client asked started).1.calls
dbexecute-Session_example = dbexecute-Session atof client asked started

open_handle-db_handle_destroy_example :
    open_handle
      (db_handle_destroy (
        attach_all client
          (codes "a" ∷ [] ∷ [])
          (db_handle_init client none none (codes "a:b") 4 false []))).calls
    ≡ some none
unfolding open_handle
open_handle-db_handle_destroy_example =
    open_handle-db_handle_destroy client none none (codes "a:b") 4 (codes "a" ∷ [] ∷ []) [] refl

-- "b" serves now
abbrev moved_on : State
moved_on = record {
  db_handle = record {
    user = none;
    pass = none;
    server = codes "a" ∷ codes "b" ∷ [];
    server_offset = 1;
    db = some 8;
    dblookup = none;
  };
  calls = mysql_real_connect (some 8) (codes "b") none none ∷ mysql_init (some 8) ∷ [];
}

db_handle_reattach-in_turn_example :
    db_handle_reattach client [] moved_on ≡ in_turn client moved_on.db_handle.server 2 1 moved_on
db_handle_reattach-in_turn_example =
    db_handle_reattach-in_turn client [] moved_on refl (omega arith)

dbexecute-bare_or_array_example :
    (skip_get (codes "RESULT") (dbexecute atof client asked moved_on).0
      ≡ bare_or_array (reports atof batch))
    × (skip_get (codes "SERVER") (dbexecute atof client asked moved_on).0
        ≡ some (string (codes "b")))
    × (skip_get (codes "MYSQL_ERROR") (dbexecute atof client asked moved_on).0
        ≡ (if fails batch then some (string (codes "gone away")) else none))
unfolding select skip_get bytes_lt bytes_eq
dbexecute-bare_or_array_example =
    dbexecute-bare_or_array atof client asked moved_on (some 8) (codes "b") (codes "x") batch refl
      refl refl
