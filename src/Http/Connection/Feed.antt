-- ===== src/Http/Connection/Feed.antt =====
-- What `request_parse` makes of a request that the network delivers in pieces.
use dbslayer.Prelude.{
  ◌≡◌, ◌≢◌, refl, sym, ap, subst, ◌∙◌, Bool, true, false, [], ◌++◌, Bytes, some, if◌then◌else◌,
  arith, Bool-cases, inl, inr,
}
use dbslayer.Http.Parse.{Parse, HeaderState, header_done}
use dbslayer.Http.RequestLine
use dbslayer.Http.RequestLine.{request_line_parse}
use dbslayer.Http.RequestLine.Keeps.{is_done, request_line_parse-ResultKeeps}
use dbslayer.Http.RequestLine.Chunks.{resume as line_resume, request_line_parse-append}
use dbslayer.Http.HeaderSection
use dbslayer.Http.HeaderSection.{Result, refused, more, complete}
use dbslayer.Http.HeaderSection.Loop.{
  read_section, resume as section_resume, header_loop-read_section, read_section-append,
}
use dbslayer.Http.HeaderSection.Keeps.{read_section-ResultKeeps}
use dbslayer.Http.Connection.{parse_buffer, after_line}

-- The state between two receive calls.
pub record IsOpen (p : Parse) : Type 0 where
  pub not_done : p.header_state ≢ header_done
  pub fresh : is_done p.request_state ≡ false → p.header_bytes_read ≡ 0

-- The request in one piece: the line, then the section byte by byte.
abbrev pub read_after : RequestLine.Result → Result
read_after RequestLine.refused = refused
read_after (RequestLine.more p) = more p []
read_after (RequestLine.line p rest) = read_section p rest

abbrev pub read_request : Parse → Bytes → Result
read_request p cs =
    if is_done p.request_state then read_section p cs else read_after (request_line_parse p cs)

after_line-read_after :
    (p : Parse) (r : RequestLine.Result)
    → p.header_state ≢ header_done
    → RequestLine.Keeps.ResultKeeps p r
    → after_line r ≡ some (read_after r)
after_line-read_after p RequestLine.refused n k = refl
after_line-read_after p (RequestLine.more q) n k = refl
after_line-read_after p (RequestLine.line q rest) n k =
    header_loop-read_section _ rest q (omega arith) (ground arith)

-- `parse_buffer` never runs out of fuel, and gives what reading the bytes one by one gives.
pub parse_buffer-read_request :
    (p : Parse) (cs : Bytes) → IsOpen p → parse_buffer p cs ≡ some (read_request p cs)
unfolding parse_buffer
parse_buffer-read_request p cs o = elim (Bool-cases (is_done p.request_state)) [
  | inl past ↦ rw past (header_loop-read_section _ cs p (omega arith) o.not_done)
  | inr before ↦ rw before (
      after_line-read_after p (request_line_parse p cs) o.not_done
        (request_line_parse-ResultKeeps cs p before))
]

abbrev pub ReadInv : Result → Type 0
ReadInv refused = Unit
ReadInv (more q rest) = IsOpen q × (rest ≡ [])
ReadInv (complete q rest) = q.header_state ≡ header_done

pub clash : {b : Bool} → b ≡ true → b ≡ false → ⊥
clash e f = cc

pub ne_of_eq : {s t : HeaderState} → s ≡ t → t ≢ header_done → s ≢ header_done
ne_of_eq e n f = n (sym e ∙ f)

section-ReadInv :
    (p : Parse) (cs : Bytes)
    → p.header_state ≢ header_done
    → is_done p.request_state ≡ true
    → ReadInv (read_section p cs)
section-ReadInv p cs n past = go (read_section p cs) (read_section-ResultKeeps cs p n)
  where
    go : (r : Result) → HeaderSection.Keeps.ResultKeeps p r → ReadInv r
    go refused h = tt
    go (more q rest) h = (
      record {
        not_done = h.0.not_done;
        fresh = λ before.
            absurd (clash past (subst (λ s. is_done s ≡ false) h.0.request_state_eq before));
      },
      h.1,
    )
    go (complete q rest) h = h

after-ReadInv :
    (p : Parse) (r : RequestLine.Result)
    → IsOpen p
    → is_done p.request_state ≡ false
    → RequestLine.Keeps.ResultKeeps p r
    → ReadInv (read_after r)
after-ReadInv p RequestLine.refused o before k = tt
after-ReadInv p (RequestLine.more q) o before k = (
  record {
    not_done = ne_of_eq k.header_state_eq o.not_done;
    fresh = λ _. k.header_bytes_eq ∙ o.fresh before;
  },
  refl,
)
after-ReadInv p (RequestLine.line q rest) o before k =
    section-ReadInv q rest (ne_of_eq k.header_state_eq o.not_done) k.done_eq

pub read_request-ReadInv : (p : Parse) (cs : Bytes) → IsOpen p → ReadInv (read_request p cs)
read_request-ReadInv p cs o = elim (Bool-cases (is_done p.request_state)) [
  | inl past ↦ rw past (section-ReadInv p cs o.not_done past)
  | inr before ↦ rw before (
      after-ReadInv p (request_line_parse p cs) o before
        (request_line_parse-ResultKeeps cs p before))
]

-- A second reading of `ys` after the result of the first.
abbrev pub resume : Result → Bytes → Result
resume refused ys = refused
resume (more p rest) ys = read_request p (rest ++ ys)
resume (complete p rest) ys = complete p (rest ++ ys)

section-append :
    (p : Parse) (xs ys : Bytes)
    → p.header_state ≢ header_done
    → is_done p.request_state ≡ true
    → read_section p (xs ++ ys) ≡ resume (read_section p xs) ys
section-append p xs ys n past =
    read_section-append xs ys p ∙ go (read_section p xs) (read_section-ResultKeeps xs p n)
  where
    go : (r : Result) → HeaderSection.Keeps.ResultKeeps p r → section_resume r ys ≡ resume r ys
    go refused h = refl
    go (more q rest) h = rw (subst (λ s. is_done s ≡ true) (sym h.0.request_state_eq) past)
    go (complete q rest) h = refl

after-append :
    (p : Parse) (r : RequestLine.Result) (ys : Bytes)
    → IsOpen p
    → RequestLine.Keeps.ResultKeeps p r
    → read_after (line_resume r ys) ≡ resume (read_after r) ys
after-append p RequestLine.refused ys o k = refl
after-append p (RequestLine.more q) ys o k = rw k.done_eq
after-append p (RequestLine.line q rest) ys o k =
    section-append q rest ys (ne_of_eq k.header_state_eq o.not_done) k.done_eq

pub read_request-append :
    (p : Parse) (xs ys : Bytes)
    → IsOpen p
    → read_request p (xs ++ ys) ≡ resume (read_request p xs) ys
read_request-append p xs ys o = elim (Bool-cases (is_done p.request_state)) [
  | inl past ↦ rw past (section-append p xs ys o.not_done past)
  | inr before ↦ rw before (
      ap read_after (request_line_parse-append xs ys p)
      ∙ after-append p (request_line_parse p xs) ys o (request_line_parse-ResultKeeps xs p before))
]
