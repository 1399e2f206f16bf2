-- ===== src/Db/Handle/Kept.antt =====
-- db/dbaccess.c: the use of the handles of MySQL.
use dbslayer.Prelude.{
  ℕ, suc, true, false, List, [], ◌∷◌, Bytes, ◌==◌, ◌≡◌, refl, subst, sym, ap, ◌∙◌, if◌then◌else◌,
  Option, none, some, arith,
}
use dbslayer.Db.Handle.{
  Conn, MysqlCall, mysql_close, mysql_init, mysql_real_connect, mysql_query, mysql_rollback, Client,
  State, Attached, close_db, init, connect_new, attempt, or_next, or_second, attempts, reattach_any,
  db_handle_reattach, reattach_in,
}
use dbslayer.Db.Handle.Startup.{attach_all, db_handle_init, db_handle_destroy, close_in}

-- a call with a handle needs that one open
abbrev pub using : Conn → Option Conn → Conn → Option Conn
using (some c) (some (some d)) next = if c == d then some next else none
using c held next = none

-- a new handle needs none open
abbrev pub opening : Conn → Option Conn → Option Conn
opening c (some none) = some c
opening c held = none

-- a handle that is NULL needs not be closed
abbrev pub closing : Conn → Option Conn → Option Conn
closing none (some none) = some none
closing c held = using c held none

-- The handle that is open behind some calls: `none` when one of them opens a second one, closes one that is not
-- open, or uses one that is not open.
unfoldable pub open_handle : List MysqlCall → Option Conn
open_handle [] = some none
open_handle (mysql_init c ∷ calls) = opening c (open_handle calls)
open_handle (mysql_close c ∷ calls) = closing c (open_handle calls)
open_handle (mysql_real_connect c group user pass ∷ calls) = using c (open_handle calls) c
open_handle (mysql_query c sql ∷ calls) = using c (open_handle calls) c
open_handle (mysql_rollback c ∷ calls) = using c (open_handle calls) c

-- the handle that is open is `db`, and there are no named servers
pub record HoldsOne (s : State) : Type 0 where
  pub open_eq : open_handle s.calls ≡ some s.db_handle.db
  pub unnamed : s.db_handle.dblookup ≡ none

using_own : (c n : ℕ) → using (some c) (some (some c)) (some n) ≡ some (some n)
using_own c n = ground arith

closing_own : (c : Conn) → closing c (some c) ≡ some none
closing_own none = refl
closing_own (some n) = ground arith

close_db-opened :
    (db : Conn) (s : State)
    → open_handle s.calls ≡ some db
    → open_handle (close_db db s).calls ≡ some none
unfolding open_handle
close_db-opened none s h = h
close_db-opened (some c) s h = rw h (ground arith)

pub close_db-unnamed :
    (db : Conn) (s : State) → (close_db db s).db_handle.dblookup ≡ s.db_handle.dblookup
close_db-unnamed none s = refl
close_db-unnamed (some c) s = refl

module _ (client : Client) where
  connect_new-HoldsOne :
      (group : Bytes) (c : Conn) (s : State)
      → open_handle s.calls ≡ some c
      → s.db_handle.dblookup ≡ none
      → HoldsOne (connect_new client group (c, s)).1
  unfolding open_handle
  connect_new-HoldsOne group none s h u = record { open_eq = h; unnamed = u }
  connect_new-HoldsOne group (some c) s h u = record { open_eq = rw h (using_own c c); unnamed = u }

  attempt-HoldsOne : (group : Bytes) (s : State) → HoldsOne s → HoldsOne (attempt client group s).1
  unfolding open_handle
  attempt-HoldsOne group s h =
      let closed = close_db s.db_handle.db s in
      connect_new-HoldsOne group (client.new_handle closed.calls) (init client closed).1
        (ap (opening (client.new_handle closed.calls)) (close_db-opened s.db_handle.db s h.open_eq))
        (close_db-unnamed s.db_handle.db s ∙ h.unnamed)

  or_next-HoldsOne :
      (ct : ℕ) (tried : Attached) (next : State → Attached)
      → HoldsOne tried.1
      → ((s : State) → HoldsOne s → HoldsOne (next s).1)
      → HoldsOne (or_next ct tried next).1
  or_next-HoldsOne ct (true, s) next h k = record { open_eq = h.open_eq; unnamed = h.unnamed }
  or_next-HoldsOne ct (false, s) next h k = k s h

  attempts-HoldsOne :
      (ct : ℕ) (groups : List Bytes) (s : State)
      → HoldsOne s
      → HoldsOne (attempts client ct groups s).1
  unfolding attempts
  attempts-HoldsOne ct [] s h = h
  attempts-HoldsOne ct (group ∷ groups) s h =
      or_next-HoldsOne ct _ _ (attempt-HoldsOne group s h) (attempts-HoldsOne (suc ct) groups)

  or_second-HoldsOne :
      (tried : Attached) (next : State → Attached)
      → HoldsOne tried.1
      → ((s : State) → HoldsOne s → HoldsOne (next s).1)
      → HoldsOne (or_second tried next).1
  or_second-HoldsOne (true, s) next h k = h
  or_second-HoldsOne (false, s) next h k = k s h

  -- The search for a server, without named servers, leaves just the handle of the state open, if one was open
  -- before: every other one is closed once.
  pub db_handle_reattach-HoldsOne :
      (name : Bytes) (s : State) → HoldsOne s → HoldsOne (db_handle_reattach client name s).1
  unfolding db_handle_reattach reattach_any
  db_handle_reattach-HoldsOne name s h =
      subst (λ l. HoldsOne (reattach_in client l name s).1) (sym h.unnamed)
        (or_second-HoldsOne _ _ (attempts-HoldsOne _ _ s h) (attempts-HoldsOne 0 _))

  pub attach_all-HoldsOne :
      (names : List Bytes) (s : State) → HoldsOne s → HoldsOne (attach_all client names s)
  unfolding attach_all
  attach_all-HoldsOne [] s h = h
  attach_all-HoldsOne (name ∷ names) s h =
      attach_all-HoldsOne names _ (db_handle_reattach-HoldsOne name s h)

  destroy_lem : (s : State) → HoldsOne s → open_handle (db_handle_destroy s).calls ≡ some none
  unfolding db_handle_destroy open_handle
  destroy_lem s h =
      subst (λ l. open_handle (close_in l s).calls ≡ some none) (sym h.unnamed)
        (ap (closing s.db_handle.db) h.open_eq ∙ closing_own s.db_handle.db)

  -- From db_handle_init without named servers, behind calls that leave no handle open, to db_handle_destroy,
  -- whatever MySQL answers and however often
  -- the connection is made again: each handle is opened when none is open, only the open one is connected, each
  -- is closed once, and at the end none is open.
  pub open_handle-db_handle_destroy :
      (user pass : Option Bytes) (server : Bytes) (seed : ℕ) (names : List Bytes)
      (calls : List MysqlCall)
      → open_handle calls ≡ some none
      → open_handle
          (db_handle_destroy (
            attach_all client names
              (db_handle_init client user pass server seed false calls))).calls
        ≡ some none
  unfolding db_handle_init
  open_handle-db_handle_destroy user pass server seed names calls h = destroy_lem _ (
      attach_all-HoldsOne names _
        (db_handle_reattach-HoldsOne [] _ (record { open_eq = h; unnamed = refl })))
