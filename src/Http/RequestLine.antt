-- ===== src/Http/RequestLine.antt =====
-- common/slayer_http_parse.c: `slayer_http_request_line_parse`, one function for one byte and the
-- loop over the bytes of the receive buffer that are not yet read.
pub mod Bounds
pub mod Chunks
pub mod Keeps
pub mod Accepts
use dbslayer.Prelude.{
  ℕ, ◌-◌, ◌||◌, [], ◌∷◌, ◌++◌, Bytes, length, bytes_eq, codes, ltb, leb, ◌==◌, if◌then◌else◌,
}
use dbslayer.Http.Parse.{
  Parse, RequestState, start, ws_before_uri, request_method, request_uri, ws_before_protocol,
  protocol_ht, protocol_htt, protocol_http, protocol_http_slash, protocol_http_major,
  protocol_http_major_dot, protocol_http_major_dot_minor, done_cr, done_lf, done, get, post,
  http_10, http_11,
}

-- One round of the loop: INVALID_HTTP_REQUEST, the next state, or the jump to
-- REQUEST_LINE_FINISHED.
pub data Step : Type 0 where
  invalid : Step
  next : Parse → Step
  finished : Parse → Step

-- `sizeof(parse->method_string)`
abbrev pub method_capacity : ℕ
method_capacity = 6

abbrev goto : Parse → RequestState → Step
goto p s = next (record p { request_state = s })

abbrev push_method : Parse → ℕ → RequestState → Step
push_method p c s = next (record p { method_string = p.method_string ++ c ∷ []; request_state = s })

abbrev push_uri : Parse → ℕ → RequestState → Step
push_uri p c s = next (record p { uri = p.uri ++ c ∷ []; request_state = s })

-- one expected byte, as in the states of "HTTP/1."
abbrev expect : Parse → ℕ → ℕ → RequestState → Step
expect p c wanted s = if c == wanted then goto p s else invalid

-- at the space behind the method: `switch (parse->method_size)` with the two `memcmp`
method_end : Parse → Step
method_end p =
    if bytes_eq p.method_string (codes "GET")
    then next (record p { method = get; request_state = ws_before_uri })
    else if bytes_eq p.method_string (codes "POST")
    then next (record p { method = post; request_state = ws_before_uri })
    else invalid

unfoldable pub step_in : RequestState → Parse → ℕ → Step
unfolding method_end bytes_eq
step_in start p c = if c == b'G' || c == b'P' then push_method p c request_method else invalid
step_in request_method p c =
    if ltb (method_capacity - 1) (length p.method_string)
    then invalid
    else if c == b' '
    then method_end p
    else push_method p c request_method
step_in ws_before_uri p c =
    if c == b' ' then next p else if c == b'/' then push_uri p c request_uri else invalid
step_in request_uri p c =
    if leb p.uri_data_size (length p.uri)
    then invalid
    else if c == b' '
    then goto p ws_before_protocol
    else if c == 0
    then invalid
    else push_uri p c request_uri
step_in ws_before_protocol p c =
    if c == b' ' then next p else if c == b'H' then goto p protocol_ht else invalid
step_in protocol_ht p c = expect p c b'T' protocol_htt
step_in protocol_htt p c = expect p c b'T' protocol_http
step_in protocol_http p c = expect p c b'P' protocol_http_slash
step_in protocol_http_slash p c = expect p c b'/' protocol_http_major
step_in protocol_http_major p c = expect p c b'1' protocol_http_major_dot
step_in protocol_http_major_dot p c = expect p c b'.' protocol_http_major_dot_minor
step_in protocol_http_major_dot_minor p c =
    if c == b'0'
    then next (record p { version = http_10; request_state = done_cr })
    else if c == b'1'
    then next (record p { version = http_11; request_state = done_cr })
    else invalid
step_in done_cr p c =
    if c == b'\n'
    then finished (record p { request_state = done })
    else if c == b'\r'
    then goto p done_lf
    else invalid
step_in done_lf p c = if c == b'\n' then finished (record p { request_state = done }) else invalid
step_in done p c = invalid

abbrev pub step : Parse → ℕ → Step
step p c = step_in p.request_state p c

-- What a call returns: -1, 1 with the buffer used up, or 0 with the bytes behind the line.
pub data Result : Type 0 where
  refused : Result
  more : Parse → Result
  line : Parse → Bytes → Result

abbrev pub on_step : Step → Bytes → (Parse → Result) → Result
on_step invalid cs loop = refused
on_step (next q) cs loop = loop q
on_step (finished q) cs loop = line q cs

unfoldable pub request_line_parse : Parse → Bytes → Result
request_line_parse p [] = more p
request_line_parse p (c ∷ cs) = on_step (step p c) cs (λ q. request_line_parse q cs)
