-- ===== src/Server/Daemon/Database.antt =====
-- server/dbslayer_server.c with db/dbaccess.c: what a client hears from MySQL.
use dbslayer.Prelude.{
  ℕ, ◌≤◌, ◌<◌, ◌≡◌, refl, sym, ap, ◌∙◌, subst, Bool, true, false, Bytes, bytes_eq, codes, Option,
  some, All, arith,
}
use dbslayer.Json.Value.{
  Value, Fields, object, string, no_fields, field, skip_put, skip_get, bytes_lt,
}
use dbslayer.Json.Print.{print}
use dbslayer.Json.Parse.{decode_json, max_depth}
use dbslayer.Json.RoundTrip.Strings.{IsChar}
use dbslayer.Json.RoundTrip.Shape.{IsPlain, IsSorted, AllAbove, depth}
use dbslayer.Text.Url.RoundTrip.{encode}
use dbslayer.Db.Batch.{Batch, no_results, results_loop, published, Looped}
use dbslayer.Db.Batch.Shape.{bare_or_array, reports, fails, results_loop-bare_or_array}
use dbslayer.Db.Handle.{Conn, mysql_query, Client, State, call}
use dbslayer.Db.Execute.{
  named_in, db_flag_set, put_if, selected, select, dbprocess_metadata, with_results, or_hint,
  finish, dbexecute,
}
use dbslayer.Db.Execute.Results.{metadata_keys}
use dbslayer.Server.Daemon.{Request, Daemon, dbjson_handler, is_xml}
use dbslayer.Server.Daemon.Answers.{dbjson_handler-request}

-- the answer to a statement that succeeds, when nothing else is asked for
abbrev pub plain_answer : Value → Bytes → Fields
plain_answer v name = field (codes "RESULT") v (field (codes "SERVER") (string name) no_fields)

put_if-false :
    (b : Bool) (key : Bytes) (v : Value) (out : Fields) → b ≡ false → put_if b key v out ≡ out
put_if-false b key v out h = rw h refl

module _ (atof : Bytes → ℕ) (client : Client) where
  -- no metadata is asked for
  dbprocess_metadata_lem :
      (db : Conn) (injson : Value) (out : Fields) (name : Bytes) (s : State)
      → All (λ key. db_flag_set injson key ≡ false) metadata_keys
      → dbprocess_metadata atof client db injson out name s ≡ out
  unfolding dbprocess_metadata
  dbprocess_metadata_lem db injson out name s (h1, (h2, (h3, (h4, (h5, (h6, (h7, (h8, h)))))))) =
      put_if-false _ _ _ _ h1
      ∙ put_if-false _ _ _ _ h2
      ∙ put_if-false _ _ _ _ h3
      ∙ put_if-false _ _ _ _ h4
      ∙ put_if-false _ _ _ _ h5
      ∙ put_if-false _ _ _ _ h6
      ∙ put_if-false _ _ _ _ h7
      ∙ put_if-false _ _ _ _ h8

  finish_lem :
      (end : Looped) (v : Value) (db : Conn) (name : Bytes) (injson : Value) (s : State)
      → published end.0.all_result end.0.sql_result ≡ some v
      → end.1 ≡ false
      → All (λ key. db_flag_set injson key ≡ false) metadata_keys
      → (finish atof client injson (with_results atof client end db name injson s)).0
        ≡ plain_answer v name
  unfolding skip_put skip_get bytes_lt bytes_eq
  finish_lem end v db name injson s p f h = rw f (
      rw p (
        ap (or_hint atof client) (dbprocess_metadata_lem db injson (plain_answer v name) name s h)))

  dbexecute-plain_answer :
      (injson : Value) (s : State) (db : Conn) (name sql : Bytes) (batch : Batch) (v : Value)
      → select injson s.db_handle ≡ selected db name
      → named_in (codes "SQL") injson ≡ some (string sql)
      → client.query s.calls db sql ≡ some batch
      → fails batch ≡ false
      → bare_or_array (reports atof batch) ≡ some v
      → All (λ key. db_flag_set injson key ≡ false) metadata_keys
      → (dbexecute atof client injson s).0 ≡ plain_answer v name
  unfolding dbexecute
  dbexecute-plain_answer injson s db name sql batch v chosen asked answered ok shape h =
      let end = results_loop-bare_or_array atof batch in
      rw chosen (
        rw asked (
          rw answered (
            finish_lem (results_loop atof batch no_results) v db name injson
              (call (mysql_query db sql) s) (end.0 ∙ shape) (end.1 ∙ ok) h)))

  plain_answer-IsPlain :
      (v : Value) (name : Bytes)
      → IsPlain v
      → All IsChar name
      → IsPlain (object (plain_answer v name))
  unfolding IsPlain IsSorted AllAbove bytes_lt
  plain_answer-IsPlain v name p c =
      ((ground arith, p, (ground arith, c, tt)), ((refl, tt), (tt, tt)))

  plain_answer-depth :
      (v : Value) (name : Bytes)
      → depth v < max_depth
      → depth (object (plain_answer v name)) ≤ max_depth
  unfolding depth
  plain_answer-depth v name h = omega (arith, h)

  -- what the handler gets of `dbexecute`
  abbrev pub db_answer : State → Fields → Value
  db_answer s stmt = object (dbexecute atof client (object stmt) s).0

  module _ (strtok : ℕ → Bytes → Option (Bytes × Bytes)) (strtod : Bytes → ℕ × ℕ)
      (print_double print_g : ℕ → Bytes) where
    -- From the client to MySQL and back: a client sends a plain object, nested at most 64 deep, in JSON and in
    -- percent encoding where `%` and `+` at least are encoded, to a path other than /dbform. It holds a
    -- statement for a server that a connection stands for, whose name is a C string, and asks for no metadata
    -- and no XML. MySQL takes the query and no statement fails, and what goes under RESULT for their reports, at
    -- least one, is plain and nested less than 64 deep. Then the client decodes from the body the object with
    -- just RESULT, the reports bare or in an array, and SERVER, the name of the server.
    pub dbjson_handler-dbexecute :
        (quoted : ℕ → Bool) (stmt : Fields) (r : Request) (d : Daemon) (s : State) (db : Conn)
        (name sql : Bytes) (batch : Batch) (v : Value)
        → quoted b'%' ≡ true
        → quoted b'+' ≡ true
        → IsPlain (object stmt)
        → depth (object stmt) ≤ max_depth
        → bytes_eq r.path (codes "/dbform") ≡ false
        → r.query ≡ some (encode quoted (print print_double (object stmt)))
        → is_xml (skip_get (codes "FORMAT") stmt) ≡ false
        → select (object stmt) s.db_handle ≡ selected db name
        → named_in (codes "SQL") (object stmt) ≡ some (string sql)
        → client.query s.calls db sql ≡ some batch
        → fails batch ≡ false
        → bare_or_array (reports atof batch) ≡ some v
        → All (λ key. db_flag_set (object stmt) key ≡ false) metadata_keys
        → IsPlain v
        → depth v < max_depth
        → All IsChar name
        → decode_json strtod
            (dbjson_handler strtok strtod print_double print_g (db_answer s) true r d).0.body
          ≡ some (object (plain_answer v name))
    dbjson_handler-dbexecute quoted stmt r d s db name sql batch v p q h l path e x chosen asked
          answered ok shape flags w m c =
        let got =
          dbexecute-plain_answer (object stmt) s db name sql batch v chosen asked answered ok shape
            flags in
        dbjson_handler-request strtok strtod print_double print_g (db_answer s) quoted stmt r d p q
          h l path e x
          (subst (λ out. IsPlain (object out)) (sym got) (plain_answer-IsPlain v name w c))
          (subst (λ out. depth (object out) ≤ max_depth) (sym got) (plain_answer-depth v name m))
        ∙ ap (λ out. some (object out)) got
