-- ===== src/Http/Tests.antt =====
-- Runs of the request parser, and an application of each theorem about it.
use dbslayer.Prelude.{◌≡◌, ◌≢◌, refl, List, [], ◌∷◌, Bytes, codes, arith, some, All}
use dbslayer.Http.Parse.{Header, get, http_11, header_done, request_parse_init}
use dbslayer.Http.RequestLine
use dbslayer.Http.RequestLine.{request_line_parse}
use dbslayer.Http.RequestLine.Accepts.{crlf, line_done}
use dbslayer.Http.RequestLine.Bounds as LineBounds
use dbslayer.Http.RequestLine.Bounds.{request_line_parse-ResultInv}
use dbslayer.Http.HeaderSection
use dbslayer.Http.HeaderSection.Loop.{header_loop}
use dbslayer.Http.HeaderSection.Bounds as SectionBounds
use dbslayer.Http.HeaderSection.Bounds.{request_header_parse-ResultInv}
use dbslayer.Http.HeaderSection.RoundTrip.{IsWritable}
use dbslayer.Http.Connection.{connection_init, deliver, request_parse, parse_buffer}
use dbslayer.Http.Connection.Deliver.{parse_of}
use dbslayer.Http.Connection.Request.{deliver-joined, deliver-request}

abbrev hello : Bytes
hello = codes "GET /db?x HTTP/1.1\r\nHost: a b \r\nAuthorization:Bearer t\r\n\r\nbody"

-- the blank at the end of a value is dropped, and a blank in front of it may be missing
hello_parsed :
    parse_of (deliver (connection_init 32) (hello ∷ []))
    ≡ some (record (line_done 32 get (codes "db?x") http_11) {
      header_state = header_done;
      headers =
          record { name = codes "Host"; value = codes "a b" }
          ∷ record { name = codes "Authorization"; value = codes "Bearer t" }
          ∷ [];
      header_bytes_read = 38;
    })
unfolding deliver request_parse parse_buffer request_line_parse RequestLine.step_in header_loop
    HeaderSection.request_header_parse HeaderSection.step HeaderSection.step_in
    HeaderSection.header_append HeaderSection.check_header HeaderSection.c_string
    HeaderSection.trim_end
hello_parsed = refl

lookup_any_case :
    HeaderSection.header_get
      (codes "AUTHORIZATION")
      (record { name = codes "Authorization"; value = codes "Bearer t" } ∷ [])
    ≡ some (codes "Bearer t")
unfolding HeaderSection.header_get HeaderSection.strcaseeq
lookup_any_case = refl

bad_method :
    request_line_parse (request_parse_init 8) (codes "GETS / HTTP/1.1\n") ≡ RequestLine.refused
unfolding request_line_parse RequestLine.step_in
bad_method = refl

-- The line buffers are in bounds at the start.
line_start : LineBounds.IsSafe (request_parse_init 8)
line_start = record {
  method_fits = omega arith;
  uri_fits = omega arith;
  uri_bytes = tt;
  state_inv = (refl, refl);
}

request_line_parse-ResultInv_example :
    LineBounds.ResultInv 8 (request_line_parse (request_parse_init 8) (codes "GET /ab"))
request_line_parse-ResultInv_example =
    request_line_parse-ResultInv (codes "GET /ab") (request_parse_init 8) (omega arith) line_start

section_start : SectionBounds.IsSafe (request_parse_init 8)
section_start = record {
  name_fits = omega arith;
  value_fits = omega arith;
  bytes_le = omega arith;
  headers_fit = tt;
}

request_header_parse-ResultInv_example :
    SectionBounds.ResultInv 8
      (HeaderSection.request_header_parse (request_parse_init 8) (codes "Name: v\r\n"))
request_header_parse-ResultInv_example =
    request_header_parse-ResultInv (codes "Name: v\r\n") (request_parse_init 8) section_start

abbrev host : Header
host = record { name = codes "Host"; value = codes "a b" }

host-IsWritable : IsWritable 8 host
unfolding HeaderSection.check_header
host-IsWritable = record {
  name_ne_nil = omega arith;
  name_bytes = (refl, (refl, (refl, (refl, tt))));
  name_fits = omega arith;
  value_bytes = omega arith;
  starts_ink = refl;
  ends_ink = refl;
  value_fits = omega arith;
}

abbrev pieces : List Bytes
pieces = codes "GET /a" ∷ codes "b HTTP/1.1\r" ∷ codes "\nHost: a b\r\n\r\n!" ∷ []

abbrev other_pieces : List Bytes
other_pieces = codes "G" ∷ codes "ET /ab HTTP/1.1\r\nHost: a b\r\n\r\n!" ∷ []

pieces-ne : All (λ b. b ≢ []) pieces
pieces-ne = ground arith

other_pieces-ne : All (λ b. b ≢ []) other_pieces
other_pieces-ne = ground arith

deliver-joined_example :
    parse_of (deliver (connection_init 8) pieces)
    ≡ parse_of (deliver (connection_init 8) other_pieces)
deliver-joined_example = deliver-joined 8 pieces other_pieces refl pieces-ne other_pieces-ne

deliver-request_example :
    parse_of (deliver (connection_init 8) pieces)
    ≡ some (record (line_done 8 get (codes "ab") http_11) {
      header_state = header_done;
      headers = host ∷ [];
      header_bytes_read = 13;
    })
deliver-request_example =
    deliver-request 8 get 0 (codes "ab") 0 http_11 crlf (host ∷ []) (codes "!") pieces (omega arith)
      (omega arith) (host-IsWritable, tt) (omega arith) pieces-ne refl
