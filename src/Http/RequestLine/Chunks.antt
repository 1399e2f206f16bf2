-- ===== src/Http/RequestLine/Chunks.antt =====
-- The line is read alike however the network cuts it.
use dbslayer.Prelude.{◌≡◌, refl, [], ◌∷◌, ◌++◌, Bytes}
use dbslayer.Http.Parse.{Parse}
use dbslayer.Http.RequestLine.{
  Step, invalid, next, finished, Result, refused, more, line, step, on_step, request_line_parse,
}

-- A second call on `ys` after the result of the first.
abbrev pub resume : Result → Bytes → Result
resume refused ys = refused
resume (more p) ys = request_line_parse p ys
resume (line p rest) ys = line p (rest ++ ys)

on_step-resume :
    (s : Step) (xs ys : Bytes) (f g : Parse → Result)
    → ((q : Parse) → f q ≡ resume (g q) ys)
    → on_step s (xs ++ ys) f ≡ resume (on_step s xs g) ys
on_step-resume invalid xs ys f g h = refl
on_step-resume (next q) xs ys f g h = h q
on_step-resume (finished q) xs ys f g h = refl

-- Reading a buffer in two parts gives the state, the verdict and the bytes left over that reading
-- it whole gives, from every state of the parser.
pub request_line_parse-append :
    (xs ys : Bytes) (p : Parse)
    → request_line_parse p (xs ++ ys) ≡ resume (request_line_parse p xs) ys
unfolding request_line_parse
request_line_parse-append [] ys p = refl
request_line_parse-append (x ∷ xs) ys p =
    on_step-resume (step p x) xs ys (λ q. request_line_parse q (xs ++ ys))
      (λ q. request_line_parse q xs) (λ q. request_line_parse-append xs ys q)
