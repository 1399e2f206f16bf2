-- ===== src/Server/Daemon/Tests.antt =====
-- A statement, a refused request, and an application of each theorem about the daemon's handler.
use dbslayer.Prelude.{
  ℕ, ◌≡◌, refl, Bool, true, ◌||◌, [], ◌∷◌, Bytes, bytes_eq, codes, Option, none, some, arith, ◌==◌,
}
use dbslayer.Http.Parse.{get, http_11}
use dbslayer.Text.Url.{urldecode_from}
use dbslayer.Text.Url.RoundTrip.{encode}
use dbslayer.Json.Value.{
  Value, Fields, object, array, string, long, pos, field, no_fields, item, no_items, skip_get,
  skip_put, bytes_lt,
}
use dbslayer.Json.Print.{print}
use dbslayer.Json.Scan.{skip_space, until_nul, strtol, strtol_digits, read_digits, clamp_long}
use dbslayer.Json.Parse.{decode_json, decode_value, value_at}
use dbslayer.Json.RoundTrip.Shape.{IsPlain, IsSorted, AllAbove, depth}
use dbslayer.Server.Daemon.{Request, Daemon, statement, dbjson_handler}
use dbslayer.Server.Daemon.Answers.{dbjson_handler-request}
use dbslayer.Server.Daemon.Forms.{first_value, statement-form}
use dbslayer.Server.Query.RoundTrip.{query}
use dbslayer.Server.Query.Tests.{tokenize, tokenize-IsStrtok, pairs, pairs-ArePairs}
use dbslayer.Server.Query.Tests as Query
use dbslayer.Server.Daemon.Refusals.{IsReported, dbjson_handler-IsReported}
use dbslayer.Db.Table.{Result, long_type, row_of, dbresult2json}
use dbslayer.Db.Batch.{last, stored}
use dbslayer.Db.Batch.Shape.{reports, reported, fails}
use dbslayer.Db.Handle.{Client, State}
use dbslayer.Db.Execute.{select, db_flag_set}
use dbslayer.Server.Daemon.Database.{plain_answer, db_answer, dbjson_handler-dbexecute}

abbrev strtok : ℕ → Bytes → Option (Bytes × Bytes)
strtok sep text = none

abbrev strtod : Bytes → ℕ × ℕ
strtod text = (0, 0)

abbrev print_double : ℕ → Bytes
print_double d = codes "0"

abbrev print_g : ℕ → Bytes
print_g d = codes "0"

-- a database that answers each statement with a number
abbrev database : Fields → Value
database stmt = object (field (codes "RESULT") (long (pos 7)) no_fields)

abbrev quoted : ℕ → Bool
quoted c = c == b'%' || c == b'+' || c == b' ' || c == b'#' || c == 0x22

abbrev stmt : Fields
stmt = field (codes "SQL") (string (codes "SELECT 7+0")) no_fields

abbrev asked : Request
asked = record {
  path = codes "/db";
  query = some (encode quoted (print print_double (object stmt)));
  method = get;
  uri_data = codes "/db?...";
  version = http_11;
}

abbrev quiet : Daemon
quiet = record { db_errors_total = 0; err_messages = [] }

stmt-IsPlain : IsPlain (object stmt)
unfolding IsPlain IsSorted AllAbove
stmt-IsPlain = ((ground arith, ground arith, tt), (tt, tt))

result-IsPlain : IsPlain (database stmt)
unfolding IsPlain IsSorted AllAbove
result-IsPlain = ((ground arith, omega arith, tt), (tt, tt))

dbjson_handler-request_example :
    decode_json strtod
      (dbjson_handler strtok strtod print_double print_g database true asked quiet).0.body
    ≡ some (database stmt)
unfolding depth bytes_eq skip_get bytes_lt
dbjson_handler-request_example =
    dbjson_handler-request strtok strtod print_double print_g database quoted stmt asked quiet refl
      refl stmt-IsPlain (omega arith) refl refl refl result-IsPlain (omega arith)

abbrev empty_request : Request
empty_request = record asked { query = none }

dbjson_handler-IsReported_example :
    IsReported strtok strtod print_double print_g database empty_request quiet
      (dbjson_handler strtok strtod print_double print_g database true empty_request quiet)
unfolding statement bytes_eq urldecode_from until_nul decode_json skip_space decode_value value_at
dbjson_handler-IsReported_example =
    dbjson_handler-IsReported strtok strtod print_double print_g database true empty_request quiet
      tt

abbrev filled : Request
filled = record asked { path = codes "/dbform"; query = some (query Query.quoted pairs) }

statement-form_example :
    (stmt : Fields) × (statement tokenize strtod print_double print_g database filled
      ≡ some (object stmt))
    × ((name : Bytes) → skip_get name stmt ≡ first_value name pairs none)
unfolding bytes_eq
statement-form_example =
    statement-form tokenize strtod print_double print_g database Query.quoted pairs filled
      tokenize-IsStrtok refl refl refl pairs-ArePairs refl refl

-- a MySQL that answers each query with a table of one number
abbrev seven : Result
seven = record {
  fields = record { name = codes "7+0"; type = long_type; charsetnr = 63 } ∷ [];
  rows = (some (codes "7") ∷ []) ∷ [];
}

abbrev atof : Bytes → ℕ
atof text = 0

abbrev client : Client
client = record {
  new_handle = λ calls. some 1;
  connects = λ calls db group. true;
  query = λ calls db sql. some (last (stored seven));
  rolls_back = λ calls db. true;
  error = λ calls db. [];
  errno = λ calls db. 0;
  stat = λ calls db. [];
  host_info = λ calls db. [];
  server_version = λ calls db. pos 0;
  client_info = [];
  client_version = pos 0;
}

abbrev connected : State
connected = record {
  db_handle = record {
    user = none;
    pass = none;
    server = codes "main" ∷ [];
    server_offset = 0;
    db = some 1;
    dblookup = none;
  };
  calls = [];
}

abbrev table : Value
table = object (
    field (codes "HEADER") (array (item (string (codes "7+0")) no_items)) (
      field (codes "ROWS") (array (item (array (item (long (pos 7)) no_items)) no_items)) (
        field (codes "TYPES") (array (item (string (codes "MYSQL_TYPE_LONG")) no_items))
          no_fields)))

table-IsPlain : IsPlain table
unfolding IsPlain IsSorted AllAbove bytes_lt
table-IsPlain = ground arith

dbjson_handler-dbexecute_example :
    decode_json strtod
      (dbjson_handler strtok strtod print_double print_g
        (db_answer atof client connected)
        true
        asked
        quiet).0.body
    ≡ some (object (plain_answer table (codes "main")))
unfolding depth bytes_eq skip_get bytes_lt select db_flag_set fails reports reported dbresult2json
    row_of strtol strtol_digits read_digits clamp_long skip_put
dbjson_handler-dbexecute_example =
    dbjson_handler-dbexecute atof client strtok strtod print_double print_g quoted stmt asked quiet
      connected (some 1) (codes "main") (codes "SELECT 7+0") (last (stored seven)) table refl refl
      stmt-IsPlain (omega arith) refl refl refl refl refl refl refl refl
      (refl, (refl, (refl, (refl, (refl, (refl, (refl, (refl, tt)))))))) table-IsPlain (omega arith)
      (ground arith)
