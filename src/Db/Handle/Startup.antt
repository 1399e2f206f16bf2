-- ===== src/Db/Handle/Startup.antt =====
-- db/dbaccess.c: `db_handle_init` and `db_handle_destroy`.
use dbslayer.Prelude.{
  ℕ, ◌%◌, Bool, List, [], ◌∷◌, Bytes, length, ltb, ◌==◌, if◌then◌else◌, Option, none, some,
}
use dbslayer.Db.Handle.{
  Conn, MysqlCall, mysql_close, Client, Handle, State, skip_lookup, call, db_handle_reattach,
}

-- a byte before the first part
abbrev pub onto_first : ℕ → List Bytes → List Bytes
onto_first c [] = (c ∷ []) ∷ []
onto_first c (part ∷ parts) = (c ∷ part) ∷ parts

-- "chop up the server string": the parts between the colons
unfoldable pub servers_of : Bytes → List Bytes
servers_of [] = [] ∷ []
servers_of (c ∷ cs) = let rest = servers_of cs in if c == b':' then [] ∷ rest else onto_first c rest

abbrev pub offset_of : ℕ → ℕ → ℕ
offset_of seed count = if ltb seed count then seed else seed % count

-- the handle before it is connected
abbrev pub new_handle : Option Bytes → Option Bytes → Bytes → ℕ → Bool → Handle
new_handle user pass server seed multidb =
    let servers = servers_of server in
    record {
      user = user;
      pass = pass;
      server = servers;
      server_offset = offset_of seed (length servers);
      db = none;
      dblookup = if multidb then some [] else none;
    }

-- a handle for each server of the list
unfoldable pub close_all : List Bytes → List (Bytes × Conn) → State → State
close_all [] entries s = s
close_all (name ∷ names) entries s =
    close_all names entries (call (mysql_close (skip_lookup name entries)) s)

abbrev pub close_in : Option (List (Bytes × Conn)) → State → State
close_in none s = call (mysql_close s.db_handle.db) s
close_in (some entries) s = close_all s.db_handle.server entries s

unfoldable pub db_handle_destroy : State → State
unfolding close_all
db_handle_destroy s = close_in s.db_handle.dblookup s

module _ (client : Client) where
  unfoldable pub attach_all : List Bytes → State → State
  attach_all [] s = s
  attach_all (name ∷ names) s = attach_all names (db_handle_reattach client name s).1

  unfoldable pub db_handle_init :
      Option Bytes → Option Bytes → Bytes → ℕ → Bool → List MysqlCall → State
  unfolding servers_of attach_all
  db_handle_init user pass server seed multidb calls =
      let h = new_handle user pass server seed multidb in
      let s : State = record { db_handle = h; calls = calls } in
      if multidb then attach_all h.server s else (db_handle_reattach client [] s).1
