-- ===== src/Server/Dispatch/Tests.antt =====
-- A server with a token and the two services of the daemon, and an application of the theorem about it.
use dbslayer.Prelude.{
  ◌≡◌, ◌≢◌, ◌⊎◌, refl, [], ◌∷◌, ◌++◌, Bytes, bytes_eq, starts_with, codes, Option, none, some, All,
  arith, ap, subst,
}
use dbslayer.Http.HeaderSection.{header_get, strcaseeq}
use dbslayer.Server.Dispatch.{
  Server, Call, serve, routed, unauthorized, request_dispatch, auth_token_matches, difference_loop,
  xor, or,
}
use dbslayer.Server.Dispatch.Token.{IsByte}
use dbslayer.Server.Dispatch.Authorized.{request_dispatch-authorized}

abbrev server : Server
server = record {
  auth_token = some (codes "s3cret");
  service_map = (codes "/db" ∷ codes "/dbform" ∷ []) ∷ [];
  total_requests = 0;
  active_connections = 1;
  db_errors_total = 0;
  stats_text = codes "{}";
  log_text = codes "[]";
  error_text = codes "[]";
  startup_args = [];
}

abbrev asking : Bytes → Call
asking header = record {
  path = some (codes "/dbform");
  headers = record { name = codes "authorization"; value = header } ∷ [];
  local_ip = codes "127.0.0.1";
  remote_ip = codes "10.0.0.7";
}

served_lem : request_dispatch server (asking (codes "Bearer s3cret")) ≡ serve 0
unfolding request_dispatch header_get strcaseeq bytes_eq starts_with auth_token_matches
    difference_loop xor or
served_lem = refl

refused_lem : request_dispatch server (asking (codes "Bearer s3creT")) ≡ unauthorized
unfolding request_dispatch header_get strcaseeq bytes_eq starts_with auth_token_matches
    difference_loop xor or
refused_lem = refl

abbrev or_nothing : Option Bytes → Bytes
or_nothing none = []
or_nothing (some text) = text

found_lem :
    (text : Bytes)
    → header_get (codes "Authorization") (asking (codes "Bearer s3cret")).headers ≡ some text
    → All IsByte text
unfolding header_get strcaseeq
found_lem text e = subst (All IsByte) (ap or_nothing e) (ground arith)

request_dispatch-authorized_example :
    ((header_get (codes "Authorization") (asking (codes "Bearer s3cret")).headers
        ≡ some (codes "Bearer " ++ codes "s3cret"))
      × (request_dispatch server (asking (codes "Bearer s3cret"))
          ≡ routed server (asking (codes "Bearer s3cret")) (codes "/dbform")))
    ⊎ ((header_get (codes "Authorization") (asking (codes "Bearer s3cret")).headers
          ≢ some (codes "Bearer " ++ codes "s3cret"))
        × (request_dispatch server (asking (codes "Bearer s3cret")) ≡ unauthorized))
unfolding bytes_eq
request_dispatch-authorized_example =
    request_dispatch-authorized server (asking (codes "Bearer s3cret")) (codes "/dbform")
      (codes "s3cret") refl refl refl (ground arith) found_lem
