-- ===== src/Db/Execute/Search.antt =====
-- db/dbaccess.c: the calls of `db_handle_reattach`, and the connection that it returns.
use dbslayer.Prelude.{
  ℕ, suc, true, false, Bool-cases, inl, inr, List, [], ◌∷◌, Bytes, bytes_eq, bytes_eq_iff, take,
  drop, ◌≡◌, refl, ap, ◌∙◌, Option, none, some,
}
use dbslayer.Db.Handle.{
  Conn, MysqlCall, mysql_close, mysql_init, mysql_real_connect, mysql_query, mysql_rollback, Client,
  State, Attached, skip_lookup, skip_replace, close_db, set_db, set_offset, init, connect_new,
  or_next, or_second, attempts, reattach_any, connect_named, reattach_in, db_handle_reattach,
}
use dbslayer.Db.Handle.Kept.{close_db-unnamed}
use dbslayer.Db.Execute.{current_db}

-- the calls of a search for a server
abbrev pub IsConnecting : MysqlCall → Type 0
IsConnecting (mysql_query db sql) = ⊥
IsConnecting (mysql_rollback db) = ⊥
IsConnecting c = Unit

pub data Attempting (start : List MysqlCall) : List MysqlCall → Type 0 where
  still : Attempting start start
  called :
      {calls : List MysqlCall} (c : MysqlCall)
      → IsConnecting c
      → Attempting start calls
      → Attempting start (c ∷ calls)

module _ (client : Client) where
  -- the connection that a search for a server returns
  pub record Fresh (start : List MysqlCall) (name : Bytes) (s : State) : Type 0 where
    pub again : Conn
    pub group : Bytes
    pub user : Option Bytes
    pub pass : Option Bytes
    pub tried : List MysqlCall
    pub attempting : Attempting start tried
    pub accepted : client.connects tried again group ≡ true
    pub calls_eq : s.calls ≡ mysql_real_connect again group user pass ∷ tried
    pub db_eq : current_db s.db_handle.dblookup s.db_handle name ≡ again

  abbrev pub Searched : List MysqlCall → Bytes → Attached → Type 0
  Searched start name (false, s) = Attempting start s.calls
  Searched start name (true, s) = Fresh start name s

  -- without named servers
  abbrev pub SearchedAny : List MysqlCall → Bytes → Attached → Type 0
  SearchedAny start name (false, s) = Attempting start s.calls × (s.db_handle.dblookup ≡ none)
  SearchedAny start name (true, s) = Fresh start name s

  SearchedAny-Searched :
      (start : List MysqlCall) (name : Bytes) (r : Attached)
      → SearchedAny start name r
      → Searched start name r
  SearchedAny-Searched start name (true, s) h = h
  SearchedAny-Searched start name (false, s) h = h.0

  close_db-Attempting :
      {start : List MysqlCall} (db : Conn) (s : State)
      → Attempting start s.calls
      → Attempting start (close_db db s).calls
  close_db-Attempting none s h = h
  close_db-Attempting (some c) s h = called (mysql_close (some c)) tt h

  connect_new-SearchedAny :
      {start : List MysqlCall} (name group : Bytes) (ct : ℕ) (c : Conn) (s : State)
      (next : State → Attached)
      → Attempting start s.calls
      → s.db_handle.dblookup ≡ none
      → ((s : State)
          → Attempting start s.calls
          → s.db_handle.dblookup ≡ none
          → SearchedAny start name (next s))
      → SearchedAny start name (or_next ct (connect_new client group (c, s)) next)
  connect_new-SearchedAny name group ct none s next h u k = k (set_db none s) h u
  connect_new-SearchedAny {start = start} name group ct (some c) s next h u k =
      elim (Bool-cases (client.connects s.calls (some c) group)) [
        | inl e ↦ rw e (record {
          again = some c;
          group = group;
          user = s.db_handle.user;
          pass = s.db_handle.pass;
          tried = s.calls;
          attempting = h;
          accepted = e;
          calls_eq = refl;
          db_eq = ap (λ l. current_db l (set_offset ct (set_db (some c) s)).db_handle name) u;
        })
        | inr e ↦ rw e (
            k _ (called (mysql_real_connect (some c) group s.db_handle.user s.db_handle.pass) tt h)
              u)
      ]

  attempts-SearchedAny :
      {start : List MysqlCall} (name : Bytes) (ct : ℕ) (groups : List Bytes) (s : State)
      → Attempting start s.calls
      → s.db_handle.dblookup ≡ none
      → SearchedAny start name (attempts client ct groups s)
  unfolding attempts
  attempts-SearchedAny name ct [] s h u = (h, u)
  attempts-SearchedAny name ct (group ∷ groups) s h u =
      let closed = close_db s.db_handle.db s in
      let opened = init client closed in
      connect_new-SearchedAny name group ct opened.0 opened.1 (attempts client (suc ct) groups)
        (called (mysql_init opened.0) tt (close_db-Attempting s.db_handle.db s h))
        (close_db-unnamed s.db_handle.db s ∙ u) (attempts-SearchedAny name (suc ct) groups)

  or_second-SearchedAny :
      {start : List MysqlCall} (name : Bytes) (r : Attached) (next : State → Attached)
      → SearchedAny start name r
      → ((s : State)
          → Attempting start s.calls
          → s.db_handle.dblookup ≡ none
          → SearchedAny start name (next s))
      → SearchedAny start name (or_second r next)
  or_second-SearchedAny name (true, s) next h k = h
  or_second-SearchedAny name (false, s) next h k = k s h.0 h.1

  reattach_any-Searched :
      {start : List MysqlCall} (name : Bytes) (s : State)
      → Attempting start s.calls
      → s.db_handle.dblookup ≡ none
      → Searched start name (reattach_any client s)
  unfolding reattach_any
  reattach_any-Searched {start = start} name s h u =
      let ct = s.db_handle.server_offset in
      let server = s.db_handle.server in
      SearchedAny-Searched start name (reattach_any client s) (
        or_second-SearchedAny {start = start} name (attempts client ct (drop ct server) s)
          (attempts client 0 (take ct server)) (attempts-SearchedAny name ct (drop ct server) s h u)
          (attempts-SearchedAny name 0 (take ct server)))

  skip_lookup-skip_replace :
      (name : Bytes) (c : Conn) (entries : List (Bytes × Conn))
      → skip_lookup name (skip_replace name c entries) ≡ c
  unfolding skip_lookup skip_replace
  skip_lookup-skip_replace name c [] = rw ((bytes_eq_iff name name).1 refl) refl
  skip_lookup-skip_replace name c ((n, d) ∷ entries) = elim (Bool-cases (bytes_eq n name)) [
    | inl e ↦ rw e (rw e refl)
    | inr e ↦ rw e (rw e (skip_lookup-skip_replace name c entries))
  ]

  connect_named-Searched :
      {start : List MysqlCall} (name : Bytes) (entries : List (Bytes × Conn)) (c : Conn) (s : State)
      → Attempting start s.calls
      → Searched start name (connect_named client name entries (c, s))
  connect_named-Searched name entries none s h = h
  connect_named-Searched name entries (some c) s h =
      elim (Bool-cases (client.connects s.calls (some c) name)) [
        | inl e ↦ rw e (record {
          again = some c;
          group = name;
          user = none;
          pass = none;
          tried = s.calls;
          attempting = h;
          accepted = e;
          calls_eq = refl;
          db_eq = skip_lookup-skip_replace name (some c) entries;
        })
        | inr e ↦ rw e (called (mysql_real_connect (some c) name none none) tt h)
      ]

  reattach_in-Searched :
      {start : List MysqlCall} (name : Bytes) (s : State) (found : Option (List (Bytes × Conn)))
      → s.db_handle.dblookup ≡ found
      → Attempting start s.calls
      → Searched start name (reattach_in client found name s)
  reattach_in-Searched name s none u h = reattach_any-Searched name s h u
  reattach_in-Searched name s (some entries) u h =
      let closed = close_db (skip_lookup name entries) s in
      let opened = init client closed in
      connect_named-Searched name entries opened.0 opened.1
        (called (mysql_init opened.0) tt (close_db-Attempting (skip_lookup name entries) s h))

  pub db_handle_reattach-Searched :
      {start : List MysqlCall} (name : Bytes) (s : State)
      → Attempting start s.calls
      → Searched start name (db_handle_reattach client name s)
  unfolding db_handle_reattach
  db_handle_reattach-Searched name s h = reattach_in-Searched name s s.db_handle.dblookup refl h
