-- ===== src/Http/RequestLine/Accepts.antt =====
-- Every well-formed request line is accepted, and its parts are what the state then holds.
use dbslayer.Prelude.{
  ℕ, zero, suc, ◌+◌, ◌<◌, ◌≡◌, refl, ◌∙◌, [], ◌∷◌, ◌++◌, Bytes, length, length-append, codes,
  replicate, append_assoc, append-nil, arith, All,
}
use dbslayer.Http.Parse.{
  Parse, ws_before_uri, request_uri, ws_before_protocol, done, HttpMethod, get, post, HttpVersion,
  http_10, http_11, request_parse_init,
}
use dbslayer.Http.RequestLine.{line, step_in, request_line_parse}
use dbslayer.Http.RequestLine.Bounds.{IsUriByte}

-- The two spellings, as a client writes them.
abbrev pub method_name : HttpMethod → Bytes
method_name get = codes "GET"
method_name post = codes "POST"

abbrev pub version_name : HttpVersion → Bytes
version_name http_10 = codes "HTTP/1.0"
version_name http_11 = codes "HTTP/1.1"

pub data LineEnd : Type 0 where
  crlf lf : LineEnd

abbrev pub end_bytes : LineEnd → Bytes
end_bytes crlf = b'\r' ∷ b'\n' ∷ []
end_bytes lf = b'\n' ∷ []

-- "GET /uri HTTP/1.1" with at least one space at each gap, and `rest` behind the line.
abbrev pub request_line : HttpMethod → ℕ → Bytes → ℕ → HttpVersion → LineEnd → Bytes → Bytes
request_line m gap uri gap' v e rest =
    method_name m
    ++ (b' '
        ∷ (replicate gap b' '
            ++ (b'/'
                ∷ (uri
                    ++ (b' '
                        ∷ (replicate gap' b' ' ++ (version_name v ++ (end_bytes e ++ rest))))))))

run_method :
    (m : HttpMethod) (size : ℕ) (rest : Bytes)
    → request_line_parse (request_parse_init size) (method_name m ++ b' ' ∷ rest)
      ≡ request_line_parse
          (record (request_parse_init size) {
            method_string = method_name m;
            method = m;
            request_state = ws_before_uri;
          })
          rest
unfolding request_line_parse step_in
run_method get size rest = refl
run_method post size rest = refl

run_spaces_uri :
    (n : ℕ) (p : Parse) (rest : Bytes)
    → p.request_state ≡ ws_before_uri
    → request_line_parse p (replicate n b' ' ++ rest) ≡ request_line_parse p rest
unfolding request_line_parse step_in
run_spaces_uri zero p rest e = refl
run_spaces_uri (suc n) p rest e = ground (arith, run_spaces_uri n p rest)

run_spaces_protocol :
    (n : ℕ) (p : Parse) (rest : Bytes)
    → p.request_state ≡ ws_before_protocol
    → request_line_parse p (replicate n b' ' ++ rest) ≡ request_line_parse p rest
unfolding request_line_parse step_in
run_spaces_protocol zero p rest e = refl
run_spaces_protocol (suc n) p rest e = ground (arith, run_spaces_protocol n p rest)

run_uri :
    (u : Bytes) (p : Parse) (rest : Bytes)
    → p.request_state ≡ request_uri
    → All IsUriByte u
    → length p.uri + length u < p.uri_data_size
    → request_line_parse p (u ++ b' ' ∷ rest)
      ≡ request_line_parse (record p { uri = p.uri ++ u; request_state = ws_before_protocol }) rest
unfolding request_line_parse step_in
run_uri [] p rest e a h = ground (arith, append-nil p.uri)
run_uri (c ∷ u) p rest e a h = ground (
  arith,
  length-append p.uri (c ∷ []),
  append_assoc p.uri (c ∷ []) u,
  run_uri u (record p { uri = p.uri ++ c ∷ [] }) rest e a.1,
)

run_version :
    (v : HttpVersion) (e : LineEnd) (p : Parse) (rest : Bytes)
    → p.request_state ≡ ws_before_protocol
    → request_line_parse p (version_name v ++ (end_bytes e ++ rest))
      ≡ line (record p { version = v; request_state = done }) rest
unfolding request_line_parse step_in
run_version http_10 crlf p rest h = ground arith
run_version http_10 lf p rest h = ground arith
run_version http_11 crlf p rest h = ground arith
run_version http_11 lf p rest h = ground arith

-- behind the first '/'
abbrev at_uri : ℕ → HttpMethod → Parse
at_uri size m = record (request_parse_init size) {
  request_state = request_uri;
  method_string = method_name m;
  method = m;
  uri = b'/' ∷ [];
}

-- The parser behind a request line.
abbrev pub line_done : ℕ → HttpMethod → Bytes → HttpVersion → Parse
line_done size m u v = record (request_parse_init size) {
  request_state = done;
  method_string = method_name m;
  method = m;
  uri = b'/' ∷ u;
  version = v;
}

-- A request line of method GET or POST, with one or more spaces at each gap, a URI of at most
-- `uri_size - 1` bytes that begins with '/' and holds no space and no NUL, version HTTP/1.0 or
-- HTTP/1.1 and either line end, is accepted from the initial state: the parser then holds exactly
-- that method, URI and version, and what follows the line is left unread.
pub request_line_parse-request_line :
    (size : ℕ) (m : HttpMethod) (gap : ℕ) (u : Bytes) (gap' : ℕ) (v : HttpVersion) (e : LineEnd)
    (rest : Bytes)
    → All IsUriByte u
    → length u + 1 < size
    → request_line_parse (request_parse_init size) (request_line m gap u gap' v e rest)
      ≡ line (line_done size m u v) rest
request_line_parse-request_line size m gap u gap' v e rest a h =
    run_method m size _
    ∙ run_spaces_uri gap _ _ refl
    ∙ unfold request_line_parse step_in in
      (run_uri u (at_uri size m) _ refl a (omega arith)
        ∙ run_spaces_protocol gap' _ _ refl
        ∙ run_version v e _ rest refl)
