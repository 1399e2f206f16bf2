-- ===== src/Server/Daemon.antt =====
-- server/dbslayer_server.c: `dbjson_handler`, which answers /db and /dbform. The database, `dbexecute`, is
-- an argument, and so are `apr_strtok`, `strtod` and `snprintf` of a double, which the JSON asks for with
-- `%.16g` and the XML with `%g`.
pub mod Answers
pub mod Refusals
pub mod Forms
pub mod Database
mod Tests
use dbslayer.Prelude.{
  ℕ, ◌+◌, ◌%◌, ◌^◌, Bool, true, false, List, [], ◌∷◌, ◌++◌, Bytes, bytes_eq, codes, Option, none,
  some, if◌then◌else◌,
}
use dbslayer.Http.Parse.{HttpMethod, get, post, HttpVersion, http_10, http_11}
use dbslayer.Text.Url.{urldecode}
use dbslayer.Json.Value.{
  Value, Fields, object, array, string, long, longlong, double, boolean, null, no_fields, field,
  skip_put, skip_get,
}
use dbslayer.Json.Scan.{until_nul}
use dbslayer.Json.Print.{print}
use dbslayer.Json.Xml.{xml_serialize}
use dbslayer.Json.Parse.{decode_json}
use dbslayer.Server.Query.{parse_qstring}

-- `uri` and `parse` of a request
pub record Request : Type 0 where
  pub path : Bytes
  pub query : Option Bytes
  pub method : HttpMethod
  pub uri_data : Bytes
  pub version : HttpVersion

pub record Response : Type 0 where
  pub response_code : ℕ
  pub content_type : Bytes
  pub body : Bytes

-- the request line and the message of each call of `slayer_server_log_err_message`, and the counter
pub record Daemon : Type 0 where
  pub db_errors_total : ℕ
  pub err_messages : List (Bytes × Bytes)

abbrev pub version_text : HttpVersion → Bytes
version_text http_10 = codes " HTTP/1.0"
version_text http_11 = codes " HTTP/1.0"

abbrev pub method_text : HttpMethod → Bytes
method_text get = codes "GET "
method_text post = codes "POST "

abbrev pub http_request : Request → Bytes
http_request r = method_text r.method ++ (r.uri_data ++ version_text r.version)

abbrev pub log_err_message : Request → Bytes → Daemon → Daemon
log_err_message r message d = record d {
  err_messages = d.err_messages ++ (http_request r, message) ∷ [];
}

-- the loop over the form
unfoldable pub json_object_of : Fields → Fields → Fields
json_object_of no_fields stmt = stmt
json_object_of (field k v form) stmt = json_object_of form (skip_put k v stmt)

-- `urldecode` makes an empty text of NULL
abbrev pub or_empty : Option Bytes → Bytes
or_empty none = []
or_empty (some text) = text

abbrev pub member : Bytes → Value → Option Value
member name (object fs) = skip_get name fs
member name (array vs) = none
member name (string s) = none
member name (long n) = none
member name (longlong n) = none
member name (double d) = none
member name (boolean b) = none
member name null = none

-- `dbexecute` gives only strings as errors
abbrev pub string_of : Value → Bytes
string_of (string s) = s
string_of _ = []

abbrev pub is_xml : Option Value → Bool
is_xml (some (string s)) = bytes_eq s (codes "xml")
is_xml _ = false

-- a counted error, which goes to the error log
abbrev pub with_errors : Option Value → Request → Daemon → Daemon
with_errors none r d = d
with_errors (some errors) r d =
    log_err_message r (codes "ERROR: " ++ string_of errors)
      (record d { db_errors_total = (d.db_errors_total + 1) % 2 ^ 32 })

abbrev pub plain_response : Bytes → Response
plain_response output = record {
  response_code = 200;
  content_type = codes "text/plain; charset=utf-8";
  body = output;
}

module _ (strtok : ℕ → Bytes → Option (Bytes × Bytes)) (strtod : Bytes → ℕ × ℕ)
    (print_double print_g : ℕ → Bytes) (dbexecute : Fields → Value) where
  -- `stmt`, which is NULL for a text that is no JSON
  unfoldable pub statement : Request → Option Value
  unfolding json_object_of
  statement r =
      if bytes_eq r.path (codes "/dbform")
      then some (object (json_object_of (parse_qstring strtok r.query) no_fields))
      else decode_json strtod (until_nul (urldecode (or_empty r.query)))

  abbrev pub output_of : Option Value → Value → Response
  output_of output_format result =
      if is_xml output_format
      then record {
        response_code = 200;
        content_type = codes "text/xml";
        body = xml_serialize print_g result;
      }
      else plain_response (print print_double result)

  abbrev pub executed : Fields → Request → Daemon → Response × Daemon
  executed stmt r d =
      let result = dbexecute stmt in
      (
        output_of (skip_get (codes "FORMAT") stmt) result,
        with_errors (member (codes "MYSQL_ERROR") result) r d,
      )

  abbrev pub not_an_object : Request → Daemon → Response × Daemon
  not_an_object r d = (
    plain_response (codes "{\"ERROR\" : \"the top level JSON value must be an object\"}"),
    log_err_message r (codes "ERROR: incoming JSON root was not an object") d,
  )

  abbrev pub not_parsed : Request → Daemon → Response × Daemon
  not_parsed r d = (
    plain_response (codes "{\"ERROR\" : \"we got problems -  couldn't parse your incoming json\"}"),
    log_err_message r (codes "ERROR: Couldn't parse incoming JSON") d,
  )

  -- by `dbhandle` and `stmt`
  abbrev pub answer : Bool → Option Value → Request → Daemon → Response × Daemon
  answer true (some (object stmt)) = executed stmt
  answer false (some (object stmt)) = not_parsed
  answer dbhandle (some (array vs)) = not_an_object
  answer dbhandle (some (string s)) = not_an_object
  answer dbhandle (some (long n)) = not_an_object
  answer dbhandle (some (longlong n)) = not_an_object
  answer dbhandle (some (double d)) = not_an_object
  answer dbhandle (some (boolean b)) = not_an_object
  answer dbhandle (some null) = not_an_object
  answer dbhandle none = not_parsed

  unfoldable pub dbjson_handler : Bool → Request → Daemon → Response × Daemon
  unfolding statement
  dbjson_handler dbhandle r d = answer dbhandle (statement r) r d
