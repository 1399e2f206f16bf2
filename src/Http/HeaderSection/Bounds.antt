-- ===== src/Http/HeaderSection/Bounds.antt =====
-- No header byte is written outside its buffer, and the section is cut off at its limit.
use dbslayer.Prelude.{
  ℕ, ◌+◌, ◌≤◌, ◌≡◌, refl, subst, [], ◌∷◌, Bytes, length, length-append, All, All-append, arith,
}
use dbslayer.Http.Parse.{Parse, Header, HeaderState, header_start}
use dbslayer.Http.HeaderSection.{
  Step, counted, invalid, next, line_end, section_end, Result, refused, more, complete, step_in,
  step, on_step, request_header_parse, header_append, appended, c_string, trim_end,
  max_header_bytes,
}

length-trim_end : (v : Bytes) → length (trim_end v) ≤ length v
unfolding trim_end
length-trim_end [] = omega arith
length-trim_end (c ∷ v) = ground (arith, length-trim_end v)

length-c_string : (v : Bytes) → length (c_string v) ≤ length v
unfolding c_string
length-c_string [] = omega arith
length-c_string (c ∷ v) = ground (arith, length-c_string v)

-- A stored header fits the buffers that it was copied from, and its name is not empty.
pub record IsBounded (size : ℕ) (h : Header) : Type 0 where
  pub name_fits : length h.name ≤ size
  pub name_ne_nil : 1 ≤ length h.name
  pub value_fits : length h.value ≤ size

-- Both buffers hold `uri_data_size + 1` bytes: the text and the NUL that ends it.
pub record IsSafe (p : Parse) : Type 0 where
  pub name_fits : length p.name ≤ p.uri_data_size
  pub value_fits : length p.value ≤ p.uri_data_size
  pub bytes_le : p.header_bytes_read ≤ max_header_bytes
  pub headers_fit : All (IsBounded p.uri_data_size) p.headers

abbrev pub StepInv : ℕ → Step → Type 0
StepInv size invalid = Unit
StepInv size (next p) = IsSafe p × (p.uri_data_size ≡ size)
StepInv size (line_end p) = IsSafe p × (p.uri_data_size ≡ size)
StepInv size (section_end p) = IsSafe p × (p.uri_data_size ≡ size)

appended-IsSafe :
    (p : Parse) (name : Bytes)
    → length name ≤ p.uri_data_size
    → IsSafe p
    → IsSafe (appended p name) × ((appended p name).uri_data_size ≡ p.uri_data_size)
appended-IsSafe p [] n h = (h, refl)
appended-IsSafe p (c ∷ cs) n h = (
  record {
    name_fits = omega arith;
    value_fits = omega arith;
    bytes_le = h.bytes_le;
    headers_fit = All-append (IsBounded p.uri_data_size) p.headers _ h.headers_fit (
      record {
        name_fits = n;
        name_ne_nil = omega arith;
        value_fits = omega (arith, length-c_string (trim_end p.value), length-trim_end p.value);
      },
      tt,
    );
  },
  refl,
)

header_append-IsSafe :
    (p : Parse)
    → IsSafe p
    → IsSafe (header_append p) × ((header_append p).uri_data_size ≡ p.uri_data_size)
unfolding header_append
header_append-IsSafe p h = appended-IsSafe p p.name h.name_fits h

step_in-StepInv :
    (s : HeaderState) (p : Parse) (c : ℕ) → IsSafe p → StepInv p.uri_data_size (step_in s p c)
unfolding step_in
step_in-StepInv header_start p c h = ground (arith, length-append p.name (c ∷ []))
step_in-StepInv _ p c h =
    ground (
      arith,
      length-append p.name (c ∷ []),
      length-append p.value (c ∷ []),
      header_append-IsSafe p h,
    )

step-StepInv : (p : Parse) (c : ℕ) → IsSafe p → StepInv p.uri_data_size (step p c)
unfolding step
step-StepInv p c h = ground (
  arith,
  λ (b : p.header_bytes_read + 1 ≤ max_header_bytes).
      step_in-StepInv p.header_state (counted p) c (record {
        name_fits = h.name_fits;
        value_fits = h.value_fits;
        bytes_le = b;
        headers_fit = h.headers_fit;
      }),
)

abbrev pub ResultInv : ℕ → Result → Type 0
ResultInv size refused = Unit
ResultInv size (more p rest) = IsSafe p × (p.uri_data_size ≡ size)
ResultInv size (complete p rest) = IsSafe p × (p.uri_data_size ≡ size)

on_step-ResultInv :
    (s : Step) (size : ℕ) (cs : Bytes) (loop : Parse → Result)
    → StepInv size s
    → ((q : Parse) → IsSafe q → q.uri_data_size ≡ size → ResultInv size (loop q))
    → ResultInv size (on_step s cs loop)
on_step-ResultInv invalid size cs loop h k = tt
on_step-ResultInv (next q) size cs loop h k = k q h.0 h.1
on_step-ResultInv (line_end q) size cs loop h k = h
on_step-ResultInv (section_end q) size cs loop h k = h

run-ResultInv :
    (cs : Bytes) (p : Parse) (size : ℕ)
    → IsSafe p
    → p.uri_data_size ≡ size
    → ResultInv size (request_header_parse p cs)
unfolding request_header_parse
run-ResultInv [] p size h e = (h, e)
run-ResultInv (c ∷ cs) p size h e =
    on_step-ResultInv (step p c) size cs (λ q. request_header_parse q cs)
      (subst (λ n. StepInv n (step p c)) e (step-StepInv p c h))
      (λ q safe e'. run-ResultInv cs q size safe e')

-- From a state whose buffers are in bounds, any received bytes lead to a refusal or to a state whose
-- buffers are in bounds again, of unchanged capacity: name and value leave room for their NUL, no
-- more than 32768 bytes were counted, and every stored header has a name of at least one byte and
-- fits the buffers that it was copied from.
pub request_header_parse-ResultInv :
    (cs : Bytes) (p : Parse) → IsSafe p → ResultInv p.uri_data_size (request_header_parse p cs)
request_header_parse-ResultInv cs p h = run-ResultInv cs p p.uri_data_size h refl
