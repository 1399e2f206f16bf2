-- ===== src/Server/Response/Lines.antt =====
-- What a client reads of a response: the lines in front of the empty line, and the body.
use dbslayer.Prelude.{
  ℕ, ◌+◌, ◌%◌, ◌^◌, ◌≡◌, ◌≢◌, refl, sym, ap, ◌∙◌, Bool, true, false, List, [], ◌∷◌, ◌++◌,
  append_assoc, append-nil, Bytes, codes, ◌==◌, if◌then◌else◌, Option, none, some, length, All,
  All-append, arith,
}
use dbslayer.Json.Value.{pos}
use dbslayer.Json.Print.{print_long}
use dbslayer.Json.RoundTrip.Chars.{All-if, digits-All}
use dbslayer.Server.Response.{
  Reply, response_code_lookup, crlf, request_id, body_of, header_text, handle_response,
}

abbrev pub with_line : Bytes → Option (List Bytes × Bytes) → Option (List Bytes × Bytes)
with_line line none = none
with_line line (some (lines, body)) = some (line ∷ lines, body)

abbrev pub end_of_line : Bytes → Bytes → Option (List Bytes × Bytes) → Option (List Bytes × Bytes)
end_of_line [] rest more = some ([], rest)
end_of_line (c ∷ line) rest more = with_line (c ∷ line) more

-- The lines up to the empty one and what follows it. `line` is what was read of a line, and
-- `after_cr` says whether a carriage return stands behind it.
unfoldable pub read_head : Bytes → Bool → Bytes → Option (List Bytes × Bytes)
read_head line after_cr [] = none
read_head line true (c ∷ cs) =
    let more = read_head [] false cs in if c == 0x0a then end_of_line line cs more else none
read_head line false (c ∷ cs) =
    let at_end = read_head line true cs in
    let more = read_head (line ++ c ∷ []) false cs in if c == 0x0d then at_end else more

abbrev pub IsInLine : ℕ → Type 0
IsInLine c = c ≢ 0x0d

in_line :
    (line text rest : Bytes)
    → All IsInLine text
    → read_head line false (text ++ rest) ≡ read_head (line ++ text) false rest
unfolding read_head
in_line line [] rest h = ap (λ l. read_head l false rest) (sym (append-nil line))
in_line line (c ∷ cs) rest (h, k) =
    not_end_lem (c == 0x0d) _ _ (ground (arith, h))
    ∙ in_line (line ++ c ∷ []) cs rest k
    ∙ ap (λ l. read_head l false rest) (append_assoc line (c ∷ []) cs)
  where
    not_end_lem :
        (b : Bool) (x y : Option (List Bytes × Bytes)) → b ≡ false → (if b then x else y) ≡ y
    not_end_lem b x y e = rw e

-- one line, of a constant beginning and the rest
line_lem :
    (c : ℕ) (name value rest : Bytes)
    → All IsInLine (c ∷ name)
    → All IsInLine value
    → read_head [] false (c ∷ (name ++ (value ++ (crlf ++ rest))))
      ≡ with_line (c ∷ (name ++ value)) (read_head [] false rest)
unfolding read_head
line_lem c name value rest h k =
    in_line [] (c ∷ name) (value ++ (crlf ++ rest)) h ∙ in_line (c ∷ name) value (crlf ++ rest) k

digits-InLine : (n : ℕ) → All IsInLine (print_long (pos n))
unfolding print_long
digits-InLine n = digits-All IsInLine 20 n [] (λ d h p. omega (arith, h, p)) tt

response_code_lookup-InLine : (code : ℕ) → All IsInLine (response_code_lookup code)
response_code_lookup-InLine code = All-if IsInLine (code == 200) _ _ (ground arith) (
    All-if IsInLine (code == 401) _ _ (ground arith) (
      All-if IsInLine (code == 403) _ _ (ground arith)
        (All-if IsInLine (code == 404) _ _ (ground arith) (ground arith))))

-- the same in front of a body
line_then :
    (c : ℕ) (name value rest body : Bytes) (found : Option (List Bytes × Bytes))
    → All IsInLine (c ∷ name)
    → All IsInLine value
    → read_head [] false (rest ++ body) ≡ found
    → read_head [] false ((c ∷ (name ++ (value ++ (crlf ++ rest)))) ++ body)
      ≡ with_line (c ∷ (name ++ value)) found
line_then c name value rest body found h k e =
    ap (λ t. read_head [] false (c ∷ t))
      (append_assoc name (value ++ (crlf ++ rest)) body
        ∙ ap (λ t. name ++ t) (append_assoc value (crlf ++ rest) body))
    ∙ line_lem c name value (rest ++ body) h k
    ∙ ap (with_line (c ∷ (name ++ value))) e

-- the lines of a response
abbrev pub lines_of : Reply → ℕ → ℕ → List Bytes
lines_of r counter body_size =
    (codes "HTTP/1.0 " ++ response_code_lookup r.response_code)
    ∷ (codes "Date: " ++ r.date)
    ∷ (codes "Server: " ++ r.server_name)
    ∷ (codes "X-Request-ID: " ++ request_id counter)
    ∷ (codes "Content-type: " ++ r.mime_type)
    ∷ (codes "Content-Length: " ++ print_long (pos body_size))
    ∷ codes "Connection: close"
    ∷ []

blank_line : (body : Bytes) → read_head [] false (crlf ++ body) ≡ some ([], body)
unfolding read_head
blank_line body = refl

-- If date, server name and content type hold no carriage return, then a client that reads a response up
-- to the first empty line finds the seven lines of the head, the sixth of which gives the number of the
-- bytes that follow, and behind it exactly the text that was to be sent. The counter that numbers the
-- responses has 32 bits.
pub read_head-handle_response :
    (r : Reply) (message_size : Option ℕ) (message : Bytes) (counter : ℕ)
    → All IsInLine r.date
    → All IsInLine r.server_name
    → All IsInLine r.mime_type
    → read_head [] false (handle_response r message_size message counter).0
      ≡ some (
        lines_of r ((counter + 1) % 2 ^ 32) (length (body_of message_size message)),
        body_of message_size message,
      )
unfolding handle_response header_text
read_head-handle_response r message_size message counter d s m =
    let body = body_of message_size message in
    let size = length body in
    let next = (counter + 1) % 2 ^ 32 in
    line_then b'H' (codes "TTP/1.0 ") (response_code_lookup r.response_code) _ body _ (ground arith)
      (response_code_lookup-InLine r.response_code)
      (line_then b'D' (codes "ate: ") r.date _ body _ (ground arith) d (
        line_then b'S' (codes "erver: ") r.server_name _ body _ (ground arith) s (
          line_then b'X' (codes "-Request-ID: ") (request_id next) _ body _ (ground arith)
            (All-append IsInLine (codes "dbslayer-") (print_long (pos next)) (ground arith)
              (digits-InLine next))
            (line_then b'C' (codes "ontent-type: ") r.mime_type _ body _ (ground arith) m (
              line_then b'C' (codes "ontent-Length: ") (print_long (pos size)) _ body _
                (ground arith) (digits-InLine size)
                (line_then b'C' (codes "onnection: close") [] crlf body _ (ground arith) tt
                  (blank_line body)))))))
