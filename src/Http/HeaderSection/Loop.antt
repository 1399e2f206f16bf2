-- ===== src/Http/HeaderSection/Loop.antt =====
-- common/slayer_http_server.c: the loop of `request_parse` over the header lines, and what it
-- computes: the same as a reader that takes one byte after another and does not stop at line ends.
use dbslayer.Prelude.{
  ℕ, zero, suc, ◌<◌, ◌≡◌, ◌≢◌, refl, sym, ap, subst, ◌∙◌, [], ◌∷◌, ◌++◌, Bytes, length, arith,
  Option, none, some, Bool, true, false, if◌then◌else◌,
}
use dbslayer.Http.Parse.{Parse, HeaderState, header_start, header_done}
use dbslayer.Http.HeaderSection.{
  Step, counted, invalid, next, line_end, section_end, Result, refused, more, complete, step_in,
  step, on_step, request_header_parse,
}

abbrev pub is_header_done : HeaderState → Bool
is_header_done header_done = true
is_header_done _ = false

-- `while (status != -1 && marker < end && state != PARSE_HEADER_DONE)`
abbrev pub continue : Result → (Parse → Bytes → Option Result) → Option Result
continue refused loop = some refused
continue (complete q rest) loop = some (complete q rest)
continue (more q []) loop = some (more q [])
continue (more q (c ∷ cs)) loop =
    if is_header_done q.header_state then some (more q (c ∷ cs)) else loop q (c ∷ cs)

-- The do-while loop, on fuel; `none` means that the fuel ran out.
unfoldable pub header_loop : ℕ → Parse → Bytes → Option Result
header_loop zero p cs = none
header_loop (suc f) p cs = continue (request_header_parse p cs) (header_loop f)

abbrev pub on_byte : Step → Bytes → (Parse → Result) → Result
on_byte invalid cs loop = refused
on_byte (next q) cs loop = loop q
on_byte (line_end q) cs loop = loop q
on_byte (section_end q) cs loop = complete q cs

-- One byte after another, up to the end of the section.
unfoldable pub read_section : Parse → Bytes → Result
read_section p [] = more p []
read_section p (c ∷ cs) = on_byte (step p c) cs (λ q. read_section q cs)

-- A line ends in the state in which the next one starts.
abbrev LineEnds : Step → Type 0
LineEnds (line_end q) = q.header_state ≡ header_start
LineEnds (next q) = q.header_state ≢ header_done
LineEnds _ = Unit

step_in-LineEnds :
    (s : HeaderState) (p : Parse) (c : ℕ)
    → s ≢ header_done
    → p.header_state ≡ s
    → LineEnds (step_in s p c)
unfolding step_in
step_in-LineEnds header_done p c n e = absurd (n refl)
step_in-LineEnds _ p c n e = ground arith

step-LineEnds : (p : Parse) (c : ℕ) → p.header_state ≢ header_done → LineEnds (step p c)
unfolding step
step-LineEnds p c n = ground (arith, step_in-LineEnds p.header_state (counted p) c n refl)

-- one call, then the rest by `read_section`
abbrev then_read : Result → Result
then_read refused = refused
then_read (more q rest) = read_section q rest
then_read (complete q rest) = complete q rest

on_step-then_read :
    (s : Step) (cs : Bytes) (f g : Parse → Result)
    → ((q : Parse) → then_read (f q) ≡ g q)
    → ((q : Parse) → read_section q cs ≡ g q)
    → then_read (on_step s cs f) ≡ on_byte s cs g
on_step-then_read invalid cs f g h k = refl
on_step-then_read (next q) cs f g h k = h q
on_step-then_read (line_end q) cs f g h k = k q
on_step-then_read (section_end q) cs f g h k = refl

parse-then_read :
    (cs : Bytes) (p : Parse) → then_read (request_header_parse p cs) ≡ read_section p cs
unfolding request_header_parse read_section
parse-then_read [] p = refl
parse-then_read (c ∷ cs) p =
    on_step-then_read (step p c) cs (λ q. request_header_parse q cs) (λ q. read_section q cs)
      (parse-then_read cs) (λ q. refl)

-- What a call leaves unread is shorter, and then starts a line.
abbrev Rests : ℕ → Result → Type 0
Rests n (more q []) = Unit
Rests n (more q (c ∷ cs)) = (length (c ∷ cs) < n) × (q.header_state ≡ header_start)
Rests n _ = Unit

Rests-suc : (n : ℕ) (r : Result) → Rests n r → Rests (suc n) r
Rests-suc n refused h = tt
Rests-suc n (more q []) h = tt
Rests-suc n (more q (c ∷ cs)) h = (omega arith, h.1)
Rests-suc n (complete q rest) h = tt

ne_done : {s : HeaderState} → s ≡ header_start → s ≢ header_done
ne_done e = ground arith

on_step-Rests :
    (s : Step) (cs : Bytes) (f : Parse → Result)
    → LineEnds s
    → ((q : Parse) → q.header_state ≢ header_done → Rests (length cs) (f q))
    → Rests (suc (length cs)) (on_step s cs f)
on_step-Rests invalid cs f h k = tt
on_step-Rests (next q) cs f h k = Rests-suc (length cs) (f q) (k q h)
on_step-Rests (line_end q) [] f h k = tt
on_step-Rests (line_end q) (c ∷ cs) f h k = (omega arith, h)
on_step-Rests (section_end q) cs f h k = tt

parse-Rests :
    (cs : Bytes) (p : Parse)
    → p.header_state ≢ header_done
    → Rests (length cs) (request_header_parse p cs)
unfolding request_header_parse
parse-Rests [] p n = tt
parse-Rests (c ∷ cs) p n =
    on_step-Rests (step p c) cs (λ q. request_header_parse q cs) (step-LineEnds p c n)
      (λ q. parse-Rests cs q)

continue-then_read :
    (r : Result) (n : ℕ) (loop : Parse → Bytes → Option Result)
    → Rests n r
    → ((q : Parse) (cs : Bytes)
        → length cs < n
        → q.header_state ≢ header_done
        → loop q cs ≡ some (read_section q cs))
    → continue r loop ≡ some (then_read r)
continue-then_read refused n loop h k = refl
continue-then_read (complete q rest) n loop h k = refl
continue-then_read (more q []) n loop h k = unfold read_section in refl
continue-then_read (more q (c ∷ cs)) n loop h k =
    subst
      (λ s.
        (if is_header_done s then some (more q (c ∷ cs)) else loop q (c ∷ cs))
        ≡ some (read_section q (c ∷ cs)))
      (sym h.1) (k q (c ∷ cs) h.0 (ne_done h.1))

-- With one round of fuel more than the bytes received, the loop of `request_parse` over the header
-- lines ends, and it yields what reading byte by byte up to the end of the section yields.
pub header_loop-read_section :
    (f : ℕ) (cs : Bytes) (p : Parse)
    → length cs < f
    → p.header_state ≢ header_done
    → header_loop f p cs ≡ some (read_section p cs)
unfolding header_loop
header_loop-read_section zero cs p h n = elim h [ ]
header_loop-read_section (suc f) cs p h n =
    continue-then_read (request_header_parse p cs) (length cs) (header_loop f) (parse-Rests cs p n)
      (λ q ds lt. header_loop-read_section f ds q (omega arith))
    ∙ ap some (parse-then_read cs p)

-- A second reading of `ys` after the result of the first.
abbrev pub resume : Result → Bytes → Result
resume refused ys = refused
resume (more p rest) ys = read_section p (rest ++ ys)
resume (complete p rest) ys = complete p (rest ++ ys)

on_byte-resume :
    (s : Step) (xs ys : Bytes) (f g : Parse → Result)
    → ((q : Parse) → f q ≡ resume (g q) ys)
    → on_byte s (xs ++ ys) f ≡ resume (on_byte s xs g) ys
on_byte-resume invalid xs ys f g h = refl
on_byte-resume (next q) xs ys f g h = h q
on_byte-resume (line_end q) xs ys f g h = h q
on_byte-resume (section_end q) xs ys f g h = refl

pub read_section-append :
    (xs ys : Bytes) (p : Parse) → read_section p (xs ++ ys) ≡ resume (read_section p xs) ys
unfolding read_section
read_section-append [] ys p = refl
read_section-append (x ∷ xs) ys p =
    on_byte-resume (step p x) xs ys (λ q. read_section q (xs ++ ys)) (λ q. read_section q xs)
      (λ q. read_section-append xs ys q)
