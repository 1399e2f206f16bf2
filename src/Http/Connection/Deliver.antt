-- ===== src/Http/Connection/Deliver.antt =====
-- A request that the network delivers in pieces is parsed as if it came in one.
use dbslayer.Prelude.{
  ℕ, ◌≡◌, ◌≢◌, refl, sym, ap, ◌∙◌, Bool, false, List, [], ◌∷◌, ◌++◌, Bytes, length, All, Option,
  none, some, if◌then◌else◌, arith, Bool-cases, inl, inr,
}
use dbslayer.Http.Parse.{Parse, HeaderState, header_done}
use dbslayer.Http.RequestLine.{request_line_parse}
use dbslayer.Http.RequestLine.Keeps.{is_done}
use dbslayer.Http.HeaderSection.{Result, refused, more, complete}
use dbslayer.Http.HeaderSection.Loop.{read_section, is_header_done}
use dbslayer.Http.Connection.{
  Connection, parse_buffer, Verdict, going, request_parse, deliver, reset, on_unread, on_verdict,
  verdict,
}
use dbslayer.Http.Connection.Feed.{
  IsOpen, read_request, ReadInv, resume, parse_buffer-read_request, read_request-ReadInv,
  read_request-append,
}

abbrev pub joined : List Bytes → Bytes
joined [] = []
joined (b ∷ bs) = b ++ joined bs

-- The request as the server then sees it; nothing, if the connection is to be closed.
abbrev pub parse_of : Verdict → Option Parse
parse_of (going c) = some c.parse
parse_of _ = none

abbrev pub result_parse : Result → Option Parse
result_parse refused = none
result_parse (more p rest) = some p
result_parse (complete p rest) = some p

reset_lem : (p : Parse) → IsOpen p → reset p ≡ p
reset_lem p o = elim (Bool-cases (is_done p.request_state)) [
  | inl past ↦ rw past
  | inr before ↦ rw before (ap (λ n. record p { header_bytes_read = n }) (sym (o.fresh before)))
]

read-[] : (p : Parse) → IsOpen p → result_parse (read_request p []) ≡ some p
unfolding read_section request_line_parse
read-[] p o = ground arith

poll :
    (c : Connection) (x : ℕ) (xs : Bytes)
    → IsOpen c.parse
    → c.unread ≡ []
    → request_parse (λ _. some (x ∷ xs)) c
      ≡ verdict (length (x ∷ xs)) (some (read_request c.parse (x ∷ xs)))
unfolding request_parse
poll c x xs o u =
    ap (on_unread (λ _. some (x ∷ xs)) c) u
    ∙ ap (λ p. verdict (length (x ∷ xs)) (parse_buffer p (x ∷ xs))) (reset_lem c.parse o)
    ∙ ap (verdict (length (x ∷ xs))) (parse_buffer-read_request c.parse (x ∷ xs) o)

is_header_done-false : (s : HeaderState) → s ≢ header_done → is_header_done s ≡ false
is_header_done-false header_done n = absurd (n refl)
is_header_done-false _ n = refl

after_poll :
    (r : Result) (n : ℕ) (ys : Bytes) (loop : Connection → Verdict)
    → ReadInv r
    → ((d : Connection)
        → IsOpen d.parse
        → d.unread ≡ []
        → parse_of (loop d) ≡ result_parse (read_request d.parse ys))
    → parse_of (on_verdict (verdict n (some r)) loop) ≡ result_parse (resume r ys)
after_poll refused n ys loop h k = refl
after_poll (more q rest) n ys loop h k =
    let d : Connection = record { parse = q; unread = rest; buffer_size = n } in
    ap (λ (b : Bool). parse_of (if b then going d else loop d))
      (is_header_done-false q.header_state h.0.not_done)
    ∙ k d h.0 h.1
    ∙ ap (λ r. result_parse (read_request q (r ++ ys))) (sym h.1)
after_poll (complete q rest) n ys loop h k =
    let d : Connection = record { parse = q; unread = rest; buffer_size = n } in
    ap (λ s. parse_of (if is_header_done s then going d else loop d)) h

pub deliver-read :
    (bs : List Bytes) (c : Connection)
    → IsOpen c.parse
    → c.unread ≡ []
    → All (λ b. b ≢ []) bs
    → parse_of (deliver c bs) ≡ result_parse (read_request c.parse (joined bs))
unfolding deliver
deliver-read [] c o u a = sym (read-[] c.parse o)
deliver-read ([] ∷ bs) c o u a = absurd (a.0 refl)
deliver-read ((x ∷ xs) ∷ bs) c o u a =
    ap (λ v. parse_of (on_verdict v (λ d. deliver d bs))) (poll c x xs o u)
    ∙ after_poll (read_request c.parse (x ∷ xs)) _ (joined bs) (λ d. deliver d bs)
        (read_request-ReadInv c.parse (x ∷ xs) o) (λ d o' u'. deliver-read bs d o' u' a.1)
    ∙ ap result_parse (sym (read_request-append c.parse (x ∷ xs) (joined bs) o))
