-- ===== src/Http/HeaderSection/Keeps.antt =====
-- What `slayer_http_request_header_parse` leaves alone, and the state it stops in.
use dbslayer.Prelude.{ℕ, ◌≡◌, ◌≢◌, refl, [], ◌∷◌, Bytes, arith}
use dbslayer.Http.Parse.{Parse, HeaderState, header_done}
use dbslayer.Http.HeaderSection.{
  Step, counted, invalid, next, line_end, section_end, Result, refused, more, complete, step_in,
  step, appended, header_append,
}
use dbslayer.Http.HeaderSection.Loop.{on_byte, read_section}

-- `q` is still past the request line, and inside the section.
pub record Keeps (p q : Parse) : Type 0 where
  pub request_state_eq : q.request_state ≡ p.request_state
  pub not_done : q.header_state ≢ header_done

abbrev StepKeeps : Parse → Step → Type 0
StepKeeps p invalid = Unit
StepKeeps p (next q) = Keeps p q
StepKeeps p (line_end q) = Keeps p q
StepKeeps p (section_end q) = q.header_state ≡ header_done

appended-request_state : (p : Parse) (n : Bytes) → (appended p n).request_state ≡ p.request_state
appended-request_state p [] = refl
appended-request_state p (c ∷ cs) = refl

step_in-StepKeeps :
    (s : HeaderState) (p : Parse) (c : ℕ)
    → s ≢ header_done
    → p.header_state ≡ s
    → StepKeeps p (step_in s p c)
unfolding step_in header_append
step_in-StepKeeps header_done p c n e = absurd (n refl)
step_in-StepKeeps _ p c n e = ground (arith, appended-request_state p p.name)

step-StepKeeps : (p : Parse) (c : ℕ) → p.header_state ≢ header_done → StepKeeps p (step p c)
unfolding step
step-StepKeeps p c n = ground (arith, step_in-StepKeeps p.header_state (counted p) c n refl)

abbrev pub ResultKeeps : Parse → Result → Type 0
ResultKeeps p refused = Unit
ResultKeeps p (more q rest) = Keeps p q × (rest ≡ [])
ResultKeeps p (complete q rest) = q.header_state ≡ header_done

ResultKeeps-trans : (p q : Parse) (r : Result) → Keeps p q → ResultKeeps q r → ResultKeeps p r
ResultKeeps-trans p q refused h k = tt
ResultKeeps-trans p q (more r rest) h k = ground arith
ResultKeeps-trans p q (complete r rest) h k = k

on_byte-ResultKeeps :
    (p : Parse) (s : Step) (cs : Bytes) (loop : Parse → Result)
    → StepKeeps p s
    → ((q : Parse) → q.header_state ≢ header_done → ResultKeeps q (loop q))
    → ResultKeeps p (on_byte s cs loop)
on_byte-ResultKeeps p invalid cs loop h k = tt
on_byte-ResultKeeps p (next q) cs loop h k = ResultKeeps-trans p q (loop q) h (k q h.not_done)
on_byte-ResultKeeps p (line_end q) cs loop h k = ResultKeeps-trans p q (loop q) h (k q h.not_done)
on_byte-ResultKeeps p (section_end q) cs loop h k = h

pub read_section-ResultKeeps :
    (cs : Bytes) (p : Parse) → p.header_state ≢ header_done → ResultKeeps p (read_section p cs)
unfolding read_section
read_section-ResultKeeps [] p n = (record { request_state_eq = refl; not_done = n }, refl)
read_section-ResultKeeps (c ∷ cs) p n =
    on_byte-ResultKeeps p (step p c) cs (λ q. read_section q cs) (step-StepKeeps p c n)
      (read_section-ResultKeeps cs)
