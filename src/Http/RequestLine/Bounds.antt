-- ===== src/Http/RequestLine/Bounds.antt =====
-- No byte of the request line is written outside its buffer, whatever the client sends, and an
-- accepted line has the parts that the caller relies on.
use dbslayer.Prelude.{
  ℕ, ◌≤◌, ◌≡◌, ◌≢◌, refl, subst, [], ◌∷◌, Bytes, length, length-append, codes, bytes_eq_iff, arith,
  ◌⊎◌, get_or, get_or-append, All, All-append,
}
use dbslayer.Http.Parse.{
  Parse, RequestState, start, ws_before_uri, request_method, request_uri, done, get, post,
}
use dbslayer.Http.RequestLine.{
  Step, invalid, next, finished, Result, refused, more, line, step_in, step, on_step,
  request_line_parse, method_capacity,
}

-- The method was compared with its name.
abbrev pub MethodRead : Parse → Type 0
MethodRead p =
    ((p.method_string ≡ codes "GET") × (p.method ≡ get))
    ⊎ ((p.method_string ≡ codes "POST") × (p.method ≡ post))

-- Neither of the bytes that end a URI.
abbrev pub IsUriByte : ℕ → Type 0
IsUriByte b = (b ≢ b' ') × (b ≢ 0)

abbrev pub UriRead : Parse → Type 0
UriRead p = (get_or p.uri 0 0 ≡ b'/') × (1 ≤ length p.uri)

-- What each state knows of the two buffers.
abbrev pub StateInv : RequestState → Parse → Type 0
StateInv start p = (p.method_string ≡ []) × (p.uri ≡ [])
StateInv request_method p = p.uri ≡ []
StateInv ws_before_uri p = MethodRead p × (p.uri ≡ [])
StateInv _ p = MethodRead p × UriRead p

-- The buffers hold `method_capacity` bytes, and `uri_data_size` bytes with a NUL behind them.
pub record IsSafe (p : Parse) : Type 0 where
  pub method_fits : length p.method_string ≤ method_capacity
  pub uri_fits : length p.uri ≤ p.uri_data_size
  pub uri_bytes : All IsUriByte p.uri
  pub state_inv : StateInv p.request_state p

abbrev pub StepInv : ℕ → Step → Type 0
StepInv size invalid = Unit
StepInv size (next p) = IsSafe p × (p.uri_data_size ≡ size)
StepInv size (finished p) = IsSafe p × (p.uri_data_size ≡ size) × (p.request_state ≡ done)

step_in-StepInv :
    (s : RequestState) (p : Parse) (c : ℕ)
    → 1 ≤ p.uri_data_size
    → IsSafe p
    → StateInv s p
    → StepInv p.uri_data_size (step_in s p c)
unfolding step_in
step_in-StepInv start p c z h i = ground (arith, length-append p.method_string (c ∷ []))
step_in-StepInv request_method p c z h i = ground (
  arith,
  length-append p.method_string (c ∷ []),
  bytes_eq_iff p.method_string (codes "GET"),
  bytes_eq_iff p.method_string (codes "POST"),
)
step_in-StepInv request_uri p c z h i = ground (
  arith,
  length-append p.uri (c ∷ []),
  get_or-append p.uri (c ∷ []) 0 i.1.1,
  All-append IsUriByte p.uri (c ∷ []) h.uri_bytes,
)
step_in-StepInv _ p c z h i = ground arith

abbrev pub ResultInv : ℕ → Result → Type 0
ResultInv size refused = Unit
ResultInv size (more p) = IsSafe p × (p.uri_data_size ≡ size)
ResultInv size (line p rest) = IsSafe p × (p.uri_data_size ≡ size) × (p.request_state ≡ done)

on_step-ResultInv :
    (s : Step) (size : ℕ) (cs : Bytes) (loop : Parse → Result)
    → StepInv size s
    → ((q : Parse) → IsSafe q → q.uri_data_size ≡ size → ResultInv size (loop q))
    → ResultInv size (on_step s cs loop)
on_step-ResultInv invalid size cs loop h k = tt
on_step-ResultInv (next q) size cs loop h k = k q h.0 h.1
on_step-ResultInv (finished q) size cs loop h k = h

run-ResultInv :
    (cs : Bytes) (p : Parse) (size : ℕ)
    → 1 ≤ size
    → IsSafe p
    → p.uri_data_size ≡ size
    → ResultInv size (request_line_parse p cs)
unfolding request_line_parse
run-ResultInv [] p size z h e = ground arith
run-ResultInv (c ∷ cs) p size z h e =
    on_step-ResultInv (step p c) size cs (λ q. request_line_parse q cs)
      (subst (λ n. StepInv n (step p c)) e
        (step_in-StepInv p.request_state p c (omega arith) h h.state_inv))
      (λ q safe e'. run-ResultInv cs q size z safe e')

-- From a state whose buffers are in bounds, with room for at least one byte of URI, any received
-- bytes lead to a refusal or to a state whose buffers are in bounds again, of unchanged capacity:
-- at most 6 bytes of method, at most `uri_data_size` bytes of URI and none of them a space or a
-- NUL. A finished line moreover has the method "GET" or "POST", recorded as such, and a URI that
-- begins with '/'.
pub request_line_parse-ResultInv :
    (cs : Bytes) (p : Parse)
    → 1 ≤ p.uri_data_size
    → IsSafe p
    → ResultInv p.uri_data_size (request_line_parse p cs)
request_line_parse-ResultInv cs p z h = run-ResultInv cs p p.uri_data_size z h refl
