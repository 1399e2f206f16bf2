-- ===== src/Server/Daemon/Refusals.antt =====
-- What a client hears whose request has no statement object, and what the error log holds of it.
use dbslayer.Prelude.{
  ℕ, ◌≡◌, refl, Bool, true, false, ◌∷◌, [], ◌++◌, Bytes, codes, Option, none, some, All, arith,
}
use dbslayer.Json.Value.{
  Value, Fields, object, array, string, long, longlong, double, boolean, null, field, no_fields,
}
use dbslayer.Json.Print.{print, print_string, escaped, escape_byte}
use dbslayer.Json.Parse.{decode_json}
use dbslayer.Json.RoundTrip.Strings.{IsChar}
use dbslayer.Json.RoundTrip.Shape.{IsPlain, IsSorted, AllAbove, depth}
use dbslayer.Json.RoundTrip.Values.{decode_json-print}
use dbslayer.Server.Daemon.{
  Request, Response, Daemon, statement, answer, dbjson_handler, http_request, not_parsed,
  not_an_object,
}

-- neither a statement object nor a connection for it
abbrev pub IsRefused : Bool → Option Value → Type 0
IsRefused true (some (object stmt)) = ⊥
IsRefused false (some (object stmt)) = Unit
IsRefused dbhandle (some (array vs)) = Unit
IsRefused dbhandle (some (string s)) = Unit
IsRefused dbhandle (some (long n)) = Unit
IsRefused dbhandle (some (longlong n)) = Unit
IsRefused dbhandle (some (double d)) = Unit
IsRefused dbhandle (some (boolean b)) = Unit
IsRefused dbhandle (some null) = Unit
IsRefused dbhandle none = Unit

abbrev pub error_object : Bytes → Value
error_object message = object (field (codes "ERROR") (string message) no_fields)

module _ (strtok : ℕ → Bytes → Option (Bytes × Bytes)) (strtod : Bytes → ℕ × ℕ)
    (print_double print_g : ℕ → Bytes) (dbexecute : Fields → Value) where
  -- an error that the client can read, and one line more in the error log
  abbrev pub IsReported : Request → Daemon → Response × Daemon → Type 0
  IsReported r d result =
      (message : Bytes) × (decode_json strtod result.0.body ≡ some (error_object message))
      × (result.1.db_errors_total ≡ d.db_errors_total)
      × (line : Bytes) × (result.1.err_messages ≡ d.err_messages ++ (http_request r, line) ∷ [])

  error_lem :
      (message : Bytes)
      → All IsChar message
      → decode_json strtod (print print_double (error_object message)) ≡ some (error_object message)
  unfolding IsPlain IsSorted AllAbove depth
  error_lem message h =
      decode_json-print strtod print_double (error_object message) ((ground arith, h, tt), (tt, tt))
        (omega arith)

  not_parsed-IsReported :
      (r : Request) (d : Daemon)
      → IsReported r d (not_parsed strtok strtod print_double print_g dbexecute r d)
  unfolding print print_string escaped escape_byte
  not_parsed-IsReported r d = (
    codes "we got problems -  couldn't parse your incoming json",
    error_lem _ (ground arith),
    refl,
    codes "ERROR: Couldn't parse incoming JSON",
    refl,
  )

  not_an_object-IsReported :
      (r : Request) (d : Daemon)
      → IsReported r d (not_an_object strtok strtod print_double print_g dbexecute r d)
  unfolding print print_string escaped escape_byte
  not_an_object-IsReported r d = (
    codes "the top level JSON value must be an object",
    error_lem _ (ground arith),
    refl,
    codes "ERROR: incoming JSON root was not an object",
    refl,
  )

  answer-IsReported :
      (dbhandle : Bool) (s : Option Value) (r : Request) (d : Daemon)
      → IsRefused dbhandle s
      → IsReported r d (answer strtok strtod print_double print_g dbexecute dbhandle s r d)
  answer-IsReported true (some (object stmt)) r d h = absurd h
  answer-IsReported false (some (object stmt)) r d h = not_parsed-IsReported r d
  answer-IsReported dbhandle (some (array vs)) r d h = not_an_object-IsReported r d
  answer-IsReported dbhandle (some (string s)) r d h = not_an_object-IsReported r d
  answer-IsReported dbhandle (some (long n)) r d h = not_an_object-IsReported r d
  answer-IsReported dbhandle (some (longlong n)) r d h = not_an_object-IsReported r d
  answer-IsReported dbhandle (some (double x)) r d h = not_an_object-IsReported r d
  answer-IsReported dbhandle (some (boolean b)) r d h = not_an_object-IsReported r d
  answer-IsReported dbhandle (some null) r d h = not_an_object-IsReported r d
  answer-IsReported dbhandle none r d h = not_parsed-IsReported r d

  -- A request whose text is no JSON, or a JSON value that is no object, or that meets no database
  -- connection: the body decodes to an object with the name ERROR and a message, the counter of database
  -- errors stays, and the error log gains exactly one line, under the request.
  pub dbjson_handler-IsReported :
      (dbhandle : Bool) (r : Request) (d : Daemon)
      → IsRefused dbhandle (statement strtok strtod print_double print_g dbexecute r)
      → IsReported r d (dbjson_handler strtok strtod print_double print_g dbexecute dbhandle r d)
  unfolding dbjson_handler
  dbjson_handler-IsReported dbhandle r d h =
      answer-IsReported dbhandle (statement strtok strtod print_double print_g dbexecute r) r d h
