-- ===== src/Http/Connection/Request.antt =====
-- A whole request, from the first byte that the client sends to the state that is handed to a worker.
use native.Mathlib.Nat.{zero-add}
use dbslayer.Prelude.{
  ℕ, ◌+◌, ◌<◌, ◌≤◌, ◌≡◌, ◌≢◌, refl, sym, ap, ◌∙◌, List, [], Bytes, length, All, some, arith,
}
use dbslayer.Http.Parse.{Header, HttpMethod, HttpVersion, header_done, request_parse_init}
use dbslayer.Http.RequestLine.Bounds.{IsUriByte}
use dbslayer.Http.RequestLine.Accepts.{
  LineEnd, line_done, request_line, request_line_parse-request_line,
}
use dbslayer.Http.HeaderSection.{max_header_bytes}
use dbslayer.Http.HeaderSection.RoundTrip.{IsWritable, write_section, section_size, run_section}
use dbslayer.Http.Connection.{connection_init, deliver}
use dbslayer.Http.Connection.Feed.{IsOpen, read_request, read_after}
use dbslayer.Http.Connection.Deliver.{joined, parse_of, result_parse, deliver-read}

init-IsOpen : (size : ℕ) → IsOpen (request_parse_init size)
init-IsOpen size = record { not_done = ground arith; fresh = λ _. refl }

-- However the network cuts the bytes of a client into non-empty pieces, the connection ends in the
-- same parser state, or is refused for every way of cutting.
pub deliver-joined :
    (size : ℕ) (bs bs' : List Bytes)
    → joined bs ≡ joined bs'
    → All (λ b. b ≢ []) bs
    → All (λ b. b ≢ []) bs'
    → parse_of (deliver (connection_init size) bs) ≡ parse_of (deliver (connection_init size) bs')
deliver-joined size bs bs' e a a' =
    deliver-read bs (connection_init size) (init-IsOpen size) refl a
    ∙ ap (λ j. result_parse (read_request (request_parse_init size) j)) e
    ∙ sym (deliver-read bs' (connection_init size) (init-IsOpen size) refl a')

-- A request of method GET or POST with one or more spaces at each gap, a URI of at most `size - 1`
-- bytes that begins with '/' and holds no space and no NUL, version HTTP/1.0 or HTTP/1.1 and either
-- line end, followed by header lines "Name: value" whose names and values fit the buffers and that
-- count at most 32768 bytes with the empty line, and by any further bytes, is parsed to exactly its
-- method, URI, version and headers in their order, however the network cuts it into non-empty
-- pieces.
pub deliver-request :
    (size : ℕ) (m : HttpMethod) (gap : ℕ) (u : Bytes) (gap' : ℕ) (v : HttpVersion) (e : LineEnd)
    (hs : List Header) (body : Bytes) (bs : List Bytes)
    → All IsUriByte u
    → length u + 1 < size
    → All (IsWritable size) hs
    → section_size hs ≤ max_header_bytes
    → All (λ b. b ≢ []) bs
    → joined bs ≡ request_line m gap u gap' v e (write_section hs body)
    → parse_of (deliver (connection_init size) bs)
      ≡ some (record (line_done size m u v) {
        header_state = header_done;
        headers = hs;
        header_bytes_read = section_size hs;
      })
deliver-request size m gap u gap' v e hs body bs a h w k n j =
    deliver-read bs (connection_init size) (init-IsOpen size) refl n
    ∙ ap (λ b. result_parse (read_request (request_parse_init size) b)) j
    ∙ ap (λ r. result_parse (read_after r))
        (request_line_parse-request_line size m gap u gap' v e (write_section hs body) a h)
    ∙ ap result_parse (
        run_section hs (line_done size m u v) body
          (record { state_start = refl; name_nil = refl; value_nil = refl }) w (omega arith))
    ∙ ap
        (λ n. some (record (line_done size m u v) {
          header_state = header_done;
          headers = hs;
          header_bytes_read = n;
        }))
        (zero-add (section_size hs))
