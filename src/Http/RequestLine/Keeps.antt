-- ===== src/Http/RequestLine/Keeps.antt =====
-- What `slayer_http_request_line_parse` leaves alone, and the state it stops in.
use dbslayer.Prelude.{ℕ, ◌≡◌, refl, Bool, true, false, [], ◌∷◌, Bytes, arith}
use dbslayer.Http.Parse.{Parse, RequestState, done}
use dbslayer.Http.RequestLine.{
  Step, invalid, next, finished, Result, refused, more, line, step_in, step, on_step,
  request_line_parse,
}

abbrev pub is_done : RequestState → Bool
is_done done = true
is_done _ = false

-- `q` has the header fields of `p`, and is past the request line or not.
pub record Keeps (p q : Parse) (past : Bool) : Type 0 where
  pub header_state_eq : q.header_state ≡ p.header_state
  pub header_bytes_eq : q.header_bytes_read ≡ p.header_bytes_read
  pub done_eq : is_done q.request_state ≡ past

abbrev StepKeeps : Parse → Step → Type 0
StepKeeps p invalid = Unit
StepKeeps p (next q) = Keeps p q false
StepKeeps p (finished q) = Keeps p q true

step_in-StepKeeps :
    (s : RequestState) (p : Parse) (c : ℕ) → p.request_state ≡ s → StepKeeps p (step_in s p c)
unfolding step_in
step_in-StepKeeps done p c e = tt
step_in-StepKeeps _ p c e = ground arith

abbrev pub ResultKeeps : Parse → Result → Type 0
ResultKeeps p refused = Unit
ResultKeeps p (more q) = Keeps p q false
ResultKeeps p (line q rest) = Keeps p q true

ResultKeeps-trans : (p q : Parse) (r : Result) → Keeps p q false → ResultKeeps q r → ResultKeeps p r
ResultKeeps-trans p q refused h k = tt
ResultKeeps-trans p q (more r) h k = ground arith
ResultKeeps-trans p q (line r rest) h k = ground arith

on_step-ResultKeeps :
    (p : Parse) (s : Step) (cs : Bytes) (loop : Parse → Result)
    → StepKeeps p s
    → ((q : Parse) → is_done q.request_state ≡ false → ResultKeeps q (loop q))
    → ResultKeeps p (on_step s cs loop)
on_step-ResultKeeps p invalid cs loop h k = tt
on_step-ResultKeeps p (next q) cs loop h k = ResultKeeps-trans p q (loop q) h (k q h.done_eq)
on_step-ResultKeeps p (finished q) cs loop h k = h

pub request_line_parse-ResultKeeps :
    (cs : Bytes) (p : Parse)
    → is_done p.request_state ≡ false
    → ResultKeeps p (request_line_parse p cs)
unfolding request_line_parse
request_line_parse-ResultKeeps [] p n = record {
  header_state_eq = refl;
  header_bytes_eq = refl;
  done_eq = n;
}
request_line_parse-ResultKeeps (c ∷ cs) p n =
    on_step-ResultKeeps p (step p c) cs (λ q. request_line_parse q cs)
      (step_in-StepKeeps p.request_state p c refl) (request_line_parse-ResultKeeps cs)
