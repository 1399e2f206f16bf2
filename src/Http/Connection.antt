-- ===== src/Http/Connection.antt =====
-- common/slayer_http_server.c: `request_parse`, the request parser over what a client sends.
pub mod Feed
pub mod Deliver
pub mod Request
use dbslayer.Prelude.{
  ℕ, suc, Bool, true, false, List, [], ◌∷◌, Bytes, length, Option, none, some, if◌then◌else◌,
}
use dbslayer.Http.Parse.{Parse, HeaderState, request_parse_init}
use dbslayer.Http.RequestLine
use dbslayer.Http.RequestLine.{request_line_parse}
use dbslayer.Http.RequestLine.Keeps.{is_done}
use dbslayer.Http.HeaderSection.{Result, refused, more, complete}
use dbslayer.Http.HeaderSection.Loop.{header_loop, is_header_done}

-- `buffer_marker` up to the end of the buffer is `unread`; `buffer_size` is what the next call of
-- `apr_socket_recv` or `slayer_tls_recv` may write at most.
pub record Connection : Type 0 where
  pub parse : Parse
  pub unread : Bytes
  pub buffer_size : ℕ

abbrev pub connection_init : ℕ → Connection
connection_init uri_size = record {
  parse = request_parse_init uri_size;
  unread = [];
  buffer_size = uri_size;
}

-- the header section, with fuel for every byte
abbrev pub headers_from : Parse → Bytes → Option Result
headers_from p cs = header_loop (suc (length cs)) p cs

abbrev pub after_line : RequestLine.Result → Option Result
after_line RequestLine.refused = some refused
after_line (RequestLine.more p) = some (more p [])
after_line (RequestLine.line p rest) = headers_from p rest

-- The two `if` blocks behind the receive call; `none` means that the fuel ran out.
unfoldable pub parse_buffer : Parse → Bytes → Option Result
parse_buffer p cs =
    if is_done p.request_state then headers_from p cs else after_line (request_line_parse p cs)

-- -1, or the state in which the next call starts
pub data Verdict : Type 0 where
  failed : Verdict
  going : Connection → Verdict
  stuck : Verdict

abbrev pub verdict : ℕ → Option Result → Verdict
verdict size none = stuck
verdict size (some refused) = failed
verdict size (some (more p rest)) = going (record { parse = p; unread = rest; buffer_size = size })
verdict size (some (complete p rest)) =
    going (record { parse = p; unread = rest; buffer_size = size })

-- `header_bytes_read = 0`, unless the request line is done
abbrev pub reset : Parse → Parse
reset p = if is_done p.request_state then p else record p { header_bytes_read = 0 }

-- `received` is the outcome of the receive call: an error, or what it wrote into the buffer.
abbrev pub on_received : Parse → Option Bytes → Verdict
on_received p none = failed
on_received p (some []) = failed
on_received p (some (c ∷ cs)) = verdict (length (c ∷ cs)) (parse_buffer (reset p) (c ∷ cs))

abbrev pub on_unread : (ℕ → Option Bytes) → Connection → Bytes → Verdict
on_unread receive c [] = on_received c.parse (receive c.buffer_size)
on_unread receive c (d ∷ ds) = verdict c.buffer_size (parse_buffer c.parse (d ∷ ds))

unfoldable pub request_parse : (ℕ → Option Bytes) → Connection → Verdict
request_parse receive c = on_unread receive c c.unread

-- Poll event after poll event, each with a piece of what the client sends, until `request_parse`
-- returns -1 or the header section is done: the connection is then taken out of the pollset.
abbrev pub on_verdict : Verdict → (Connection → Verdict) → Verdict
on_verdict (going c) loop = if is_header_done c.parse.header_state then going c else loop c
on_verdict v loop = v

unfoldable pub deliver : Connection → List Bytes → Verdict
deliver c [] = going c
deliver c (b ∷ bs) = on_verdict (request_parse (λ _. some b) c) (λ d. deliver d bs)
