-- ===== src/Server/Dispatch.antt =====
-- common/slayer_http_server.c: `slayer_http_request_dispatch` and `slayer_auth_token_matches`, as it is
-- compiled without OpenSSL. What the other parts make of a request is an action here.
pub mod Token
pub mod Authorized
mod Tests
use dbslayer.Prelude.{
  ℕ, zero, suc, ◌+◌, ◌*◌, ◌/◌, ◌%◌, Bool, true, false, not, ◌||◌, List, [], ◌∷◌, ◌++◌, Bytes,
  bytes_eq, starts_with, codes, ◌==◌, if◌then◌else◌, Option, none, some, length, drop,
}
use dbslayer.Http.Parse.{Header}
use dbslayer.Http.HeaderSection.{header_get}
use dbslayer.Json.Value.{pos}
use dbslayer.Json.Print.{print_long}

-- `a ^ b` and `a | b` on numbers of `w` bits
unfoldable pub xor : ℕ → ℕ → ℕ → ℕ
xor zero a b = 0
xor (suc w) a b = (a + b) % 2 + xor w (a / 2) (b / 2) * 2

abbrev pub or_bit : ℕ → ℕ → ℕ
or_bit a b = if a == 0 then b else 1

unfoldable pub or : ℕ → ℕ → ℕ → ℕ
or zero a b = 0
or (suc w) a b = or_bit (a % 2) (b % 2) + or w (a / 2) (b / 2) * 2

-- the loop over two texts of one length
unfoldable pub difference_loop : ℕ → Bytes → Bytes → ℕ
unfolding xor or
difference_loop difference [] expected = difference
difference_loop difference (p ∷ provided) [] = difference
difference_loop difference (p ∷ provided) (e ∷ expected) =
    difference_loop (or 8 difference (xor 8 p e)) provided expected

unfoldable pub auth_token_matches : Bytes → Bytes → Bool
unfolding difference_loop
auth_token_matches provided expected =
    if length provided == length expected then difference_loop 0 provided expected == 0 else false

pub data Action : Type 0 where
  -- response code, content type and text
  respond : ℕ → Bytes → Bytes → Action
  -- `service_handler_func` of the service of an index
  serve : ℕ → Action
  -- `slayer_http_fileserver`
  send_file : Action
  -- the answer "going down", and APR_EOF for the caller
  go_down : Action
  -- the connection is closed without an answer
  close : Action

pub record Server : Type 0 where
  pub auth_token : Option Bytes
  -- the URLs of each service
  pub service_map : List (List Bytes)
  pub total_requests : ℕ
  pub active_connections : ℕ
  pub db_errors_total : ℕ
  -- what `slayer_server_stats_tojson` and `slayer_server_log_get_entries` give
  pub stats_text : Bytes
  pub log_text : Bytes
  pub error_text : Bytes
  pub startup_args : Bytes

pub record Call : Type 0 where
  -- what `apr_uri_parse` finds
  pub path : Option Bytes
  pub headers : List Header
  pub local_ip : Bytes
  pub remote_ip : Bytes

abbrev newline : Bytes
newline = 0x0a ∷ []

abbrev pub metrics_text : Server → Bytes
metrics_text s =
    codes "# HELP dbslayer_requests_total Total requests processed"
    ++ newline
    ++ codes "# TYPE dbslayer_requests_total counter"
    ++ newline
    ++ codes "dbslayer_requests_total "
    ++ print_long (pos s.total_requests)
    ++ newline
    ++ codes "# HELP dbslayer_active_connections Current active connections"
    ++ newline
    ++ codes "# TYPE dbslayer_active_connections gauge"
    ++ newline
    ++ codes "dbslayer_active_connections "
    ++ print_long (pos s.active_connections)
    ++ newline
    ++ codes "# HELP dbslayer_db_errors_total Total database errors"
    ++ newline
    ++ codes "# TYPE dbslayer_db_errors_total counter"
    ++ newline
    ++ codes "dbslayer_db_errors_total "
    ++ print_long (pos s.db_errors_total)
    ++ newline

abbrev pub is_listed : Bytes → List Bytes → Bool
is_listed path [] = false
is_listed path (url ∷ urls) = bytes_eq path url || is_listed path urls

-- the two loops: the first service, from index `i` on, that lists the path
abbrev pub service_of : ℕ → Bytes → List (List Bytes) → Option ℕ
service_of i path [] = none
service_of i path (urls ∷ rest) =
    if is_listed path urls then some i else service_of (i + 1) path rest

abbrev pub text_plain : Bytes → Action
text_plain message = respond 200 (codes "text/plain; charset=utf-8") message

-- behind the services
abbrev pub unserved : Server → Call → Bytes → Action
unserved s c path =
    if bytes_eq path (codes "/shutdown")
    then if bytes_eq c.local_ip c.remote_ip
      then go_down
      else respond 403 (codes "text/plain; charset=utf-8") (codes "You are not authorized!")
    else if bytes_eq path (codes "/stats")
    then text_plain s.stats_text
    else if bytes_eq path (codes "/stats/log")
    then text_plain s.log_text
    else if bytes_eq path (codes "/stats/error")
    then text_plain s.error_text
    else if bytes_eq path (codes "/stats/args")
    then text_plain s.startup_args
    else send_file

abbrev pub served : Option ℕ → Server → Call → Bytes → Action
served (some i) s c path = serve i
served none s c path = unserved s c path

-- behind the check of the token
abbrev pub routed : Server → Call → Bytes → Action
routed s c path =
    if bytes_eq path (codes "/metrics")
    then respond 200 (codes "text/plain; version=0.0.4; charset=utf-8") (metrics_text s)
    else served (service_of 0 path s.service_map) s c path

abbrev pub bearer_matches : Bytes → Option Bytes → Bool
bearer_matches token none = false
bearer_matches token (some header) =
    if starts_with (codes "Bearer ") header then auth_token_matches (drop 7 header) token else false

abbrev pub is_admitted : Option Bytes → Option Bytes → Bool
is_admitted none header = true
is_admitted (some token) header = bearer_matches token header

abbrev pub unauthorized : Action
unauthorized = respond 401 (codes "text/plain") (codes "Unauthorized")

abbrev pub health : Action
health = respond 200 (codes "application/json") (codes "{\"status\":\"ok\"}")

abbrev pub dispatch_path : Server → Call → Option Bytes → Action
dispatch_path s c none = close
dispatch_path s c (some path) =
    if bytes_eq path (codes "/health")
    then health
    else if is_admitted s.auth_token (header_get (codes "Authorization") c.headers)
    then routed s c path
    else unauthorized

unfoldable pub request_dispatch : Server → Call → Action
unfolding auth_token_matches
request_dispatch s c = dispatch_path s c c.path
