-- ===== src/Db/Handle.antt =====
-- db/dbaccess.c: `db_handle_t`, which `db_handle_init` makes and `db_handle_reattach` connects. A `MYSQL *` is
-- a number, and `none` is NULL. The calls of MySQL stand in a list, the latest first, and what MySQL answers
-- to a call is a function of those before it. The options and the time limits of a connection are not
-- modelled.
pub mod Startup
pub mod Cycle
pub mod Kept
use dbslayer.Prelude.{
  ℕ, zero, suc, ◌%◌, Bool, true, false, List, [], ◌∷◌, Bytes, bytes_eq, length, take, drop, get_or,
  ltb, ◌==◌, if◌then◌else◌, Option, none, some,
}
use dbslayer.Json.Value.{ℤ}
use dbslayer.Db.Batch.{Batch}

abbrev pub Conn : Type 0
Conn = Option ℕ

pub data MysqlCall : Type 0 where
  mysql_close : Conn → MysqlCall
  mysql_init : Conn → MysqlCall
  mysql_real_connect : Conn → Bytes → Option Bytes → Option Bytes → MysqlCall
  mysql_query : Conn → Bytes → MysqlCall
  mysql_rollback : Conn → MysqlCall

-- MySQL and its client: the pointer of a new handle, if a handle connects to the server of a group, the results
-- of a query (`none` when it fails), if a rollback succeeds, and what they tell of a handle
pub record Client : Type 0 where
  pub new_handle : List MysqlCall → Conn
  pub connects : List MysqlCall → Conn → Bytes → Bool
  pub query : List MysqlCall → Conn → Bytes → Option Batch
  pub rolls_back : List MysqlCall → Conn → Bool
  pub error : List MysqlCall → Conn → Bytes
  pub errno : List MysqlCall → Conn → ℕ
  pub stat : List MysqlCall → Conn → Bytes
  pub host_info : List MysqlCall → Conn → Bytes
  pub server_version : List MysqlCall → Conn → ℤ
  pub client_info : Bytes
  pub client_version : ℤ

-- `dblookup` is there with named servers only; a name may stand for NULL in it
pub record Handle : Type 0 where
  pub user : Option Bytes
  pub pass : Option Bytes
  pub server : List Bytes
  pub server_offset : ℕ
  pub db : Conn
  pub dblookup : Option (List (Bytes × Conn))

pub record State : Type 0 where
  pub db_handle : Handle
  pub calls : List MysqlCall

-- `json_skip_get`: NULL for a name that is not there
unfoldable pub skip_lookup : Bytes → List (Bytes × Conn) → Conn
skip_lookup name [] = none
skip_lookup name ((n, c) ∷ entries) =
    let rest = skip_lookup name entries in if bytes_eq n name then c else rest

-- `json_skip_replace`
unfoldable pub skip_replace : Bytes → Conn → List (Bytes × Conn) → List (Bytes × Conn)
skip_replace name c [] = (name, c) ∷ []
skip_replace name c ((n, d) ∷ entries) =
    let rest = skip_replace name c entries in
    if bytes_eq n name then (n, c) ∷ entries else (n, d) ∷ rest

abbrev pub call : MysqlCall → State → State
call c s = record s { calls = c ∷ s.calls }

-- `if(db) mysql_close(db)`
abbrev pub close_db : Conn → State → State
close_db none s = s
close_db (some c) s = call (mysql_close (some c)) s

abbrev pub set_db : Conn → State → State
set_db c s = record s { db_handle = record s.db_handle { db = c } }

abbrev pub set_offset : ℕ → State → State
set_offset ct s = record s { db_handle = record s.db_handle { server_offset = ct } }

-- `json_skip_replace(handle->dblookup, ...)`
abbrev pub set_named : Bytes → Conn → List (Bytes × Conn) → State → State
set_named name c entries s = record s {
  db_handle = record s.db_handle { dblookup = some (skip_replace name c entries) };
}

-- what a search for a server gives: if it returns the handle, and the state
abbrev pub Attached : Type 0
Attached = Bool × State

-- `return handle`, or the next round
abbrev pub or_next : ℕ → Attached → (State → Attached) → Attached
or_next ct (true, s) next = (true, set_offset ct s)
or_next ct (false, s) next = next s

-- the second loop, when the first one ends
abbrev pub or_second : Attached → (State → Attached) → Attached
or_second (true, s) next = (true, s)
or_second (false, s) next = next s

module _ (client : Client) where
  abbrev pub real_connect : Conn → Bytes → Option Bytes → Option Bytes → State → Attached
  real_connect c group user pass s =
      (client.connects s.calls c group, call (mysql_real_connect c group user pass) s)

  -- `mysql_init`
  abbrev pub init : State → Conn × State
  init s = let c = client.new_handle s.calls in (c, call (mysql_init c) s)

  -- a new handle is connected, unless it is NULL
  abbrev pub connect_new : Bytes → Conn × State → Attached
  connect_new group (none, s) = (false, set_db none s)
  connect_new group (some c, s) =
      real_connect (some c) group s.db_handle.user s.db_handle.pass (set_db (some c) s)

  -- a round of either loop
  abbrev pub attempt : Bytes → State → Attached
  attempt group s = connect_new group (init (close_db s.db_handle.db s))

  -- a loop over servers, from number `ct` on
  unfoldable pub attempts : ℕ → List Bytes → State → Attached
  attempts ct [] s = (false, s)
  attempts ct (group ∷ groups) s = or_next ct (attempt group s) (attempts (suc ct) groups)

  -- the servers from `server_offset` on, and then those before it
  unfoldable pub reattach_any : State → Attached
  unfolding attempts
  reattach_any s =
      let h = s.db_handle in
      or_second (attempts h.server_offset (drop h.server_offset h.server) s)
        (attempts 0 (take h.server_offset h.server))

  -- a new handle for a name, unless it is NULL
  abbrev pub connect_named : Bytes → List (Bytes × Conn) → Conn × State → Attached
  connect_named name entries (none, s) = (false, set_named name none entries s)
  connect_named name entries (some c, s) =
      real_connect (some c) name none none (set_named name (some c) entries s)

  abbrev pub reattach_named : Bytes → List (Bytes × Conn) → State → Attached
  reattach_named name entries s =
      connect_named name entries (init (close_db (skip_lookup name entries) s))

  abbrev pub reattach_in : Option (List (Bytes × Conn)) → Bytes → State → Attached
  reattach_in none name s = reattach_any s
  reattach_in (some entries) name s = reattach_named name entries s

  unfoldable pub db_handle_reattach : Bytes → State → Attached
  unfolding reattach_any attempts skip_lookup skip_replace
  db_handle_reattach name s = reattach_in s.db_handle.dblookup name s
