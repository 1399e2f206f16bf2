-- ===== src/Server/Query/RoundTrip.antt =====
-- What `parse_qstring` makes of a query string of names and percent-encoded values.
use dbslayer.Prelude.{
  ℕ, zero, suc, ◌<◌, ◌/◌, ◌%◌, ◌≡◌, ◌≢◌, refl, ap, ◌∙◌, Bool, true, false, not, List, [], ◌∷◌, ◌++◌,
  Bytes, length, length-append, All-append, Option, none, some, map, All, arith, digit,
  passes_under, passes_at, ◌==◌, if◌then◌else◌,
}
use dbslayer.Text.Url.RoundTrip.{encode, urldecode-encode}
use dbslayer.Json.Value.{Fields, no_fields, string, skip_put}
use dbslayer.Json.Scan.{until_nul}
use dbslayer.Json.RoundTrip.Strings.{IsChar}
use dbslayer.Server.Query.{params, put_named, put_params, parse_qstring}

-- What is documented of `strtok`, for a token that begins the text.
pub record IsStrtok (strtok : ℕ → Bytes → Option (Bytes × Bytes)) : Type 0 where
  pub no_token : (sep : ℕ) → strtok sep [] ≡ none
  pub token_then :
      (sep c : ℕ) (cs rest : Bytes)
      → All (λ b. b ≢ sep) (c ∷ cs)
      → strtok sep (c ∷ (cs ++ sep ∷ rest)) ≡ some (c ∷ cs, rest)
  pub last_token :
      (sep c : ℕ) (cs : Bytes)
      → All (λ b. b ≢ sep) (c ∷ cs)
      → strtok sep (c ∷ cs) ≡ some (c ∷ cs, [])

-- a name that no separator is part of, and a value
pub record Pair : Type 0 where
  pub first : ℕ
  pub others : Bytes
  pub value : Bytes

abbrev pub name_of : Pair → Bytes
name_of p = p.first ∷ p.others

abbrev pub IsPair : Pair → Type 0
IsPair p = All (λ b. (b ≢ b'=') × (b ≢ b'&')) (name_of p) × All IsChar p.value

abbrev pub param : (ℕ → Bool) → Pair → Bytes
param quoted p = name_of p ++ b'=' ∷ encode quoted p.value

-- the pairs with `&` between them
abbrev pub query : (ℕ → Bool) → List Pair → Bytes
query quoted [] = []
query quoted (p ∷ []) = param quoted p
query quoted (p ∷ q ∷ ps) = param quoted p ++ b'&' ∷ query quoted (q ∷ ps)

-- the form that holds the pairs, put in their order
abbrev pub put_pairs : List Pair → Fields → Fields
put_pairs [] form = form
put_pairs (p ∷ ps) form = put_pairs ps (skip_put (name_of p) (string p.value) form)

digit_table : passes_under (λ d. not (digit d == b'&')) 16 ≡ true
unfolding passes_under
digit_table = refl

digit_ne : (d : ℕ) → d < 16 → digit d ≢ b'&'
digit_ne d h =
    let p = passes_at (λ d. not (digit d == b'&')) d 16 digit_table h in λ e. ground (arith, p, e)

encoded_ne :
    (quoted : ℕ → Bool) (v : Bytes)
    → quoted b'&' ≡ true
    → All IsChar v
    → All (λ b. b ≢ b'&') (encode quoted v)
encoded_ne quoted [] q h = tt
encoded_ne quoted (n ∷ ns) q (c, h) = choose_lem (quoted n) refl (encoded_ne quoted ns q h)
  where
    choose_lem :
        (b : Bool)
        → quoted n ≡ b
        → All (λ b. b ≢ b'&') (encode quoted ns)
        → All
            (λ b. b ≢ b'&')
            (if b
              then b'%' ∷ digit (n / 16) ∷ digit (n % 16) ∷ encode quoted ns
              else n ∷ encode quoted ns)
    choose_lem true e k = (
      λ p. omega (arith, p),
      (digit_ne (n / 16) (omega (arith, c.1)), (digit_ne (n % 16) (omega arith), k)),
    )
    choose_lem false e k = (λ p. cc, k)

pub until_nul-IsChar : (s : Bytes) → All IsChar s → until_nul s ≡ s
unfolding until_nul
until_nul-IsChar [] h = refl
until_nul-IsChar (c ∷ cs) ((p, q), k) =
    nonzero_lem (c == 0) (ground (arith, p)) ∙ ap (λ t. c ∷ t) (until_nul-IsChar cs k)
  where
    nonzero_lem : (b : Bool) → b ≡ false → (if b then [] else c ∷ until_nul cs) ≡ c ∷ until_nul cs
    nonzero_lem b e = rw e

pub All-imp {ℓ κ λ'} :
    {A : Type ℓ} (P : A → Type κ) (Q : A → Type λ') (xs : List A)
    → ((x : A) → P x → Q x)
    → All P xs
    → All Q xs
All-imp P Q [] f h = tt
All-imp P Q (x ∷ xs) f (h, k) = (f x h, All-imp P Q xs f k)

param_ne :
    (quoted : ℕ → Bool) (p : Pair)
    → quoted b'&' ≡ true
    → IsPair p
    → All (λ b. b ≢ b'&') (param quoted p)
param_ne quoted p q (h, k) =
    All-append (λ b. b ≢ b'&') (name_of p) (b'=' ∷ encode quoted p.value)
      (All-imp _ (λ b. b ≢ b'&') (name_of p) (λ x y. y.1) h)
      (λ e. omega (arith, e), encoded_ne quoted p.value q k)

module _ (strtok : ℕ → Bytes → Option (Bytes × Bytes)) (laws : IsStrtok strtok) where
  params_nil : (n : ℕ) → params strtok n [] ≡ []
  unfolding params
  params_nil zero = refl
  params_nil (suc n) = rw (laws.no_token b'&')

  params-query :
      (quoted : ℕ → Bool) (ps : List Pair) (n : ℕ)
      → quoted b'&' ≡ true
      → All IsPair ps
      → length (query quoted ps) < n
      → params strtok n (query quoted ps) ≡ map (param quoted) ps
  unfolding params
  params-query quoted ps zero q h l = absurd (omega (arith, l))
  params-query quoted [] (suc n) q h l = params_nil (suc n)
  params-query quoted (p ∷ []) (suc n) q (h, k) l =
      rw
        (laws.last_token b'&' p.first (p.others ++ b'=' ∷ encode quoted p.value)
          (param_ne quoted p q h))
        (ap (λ ts. param quoted p ∷ ts) (params_nil n))
  params-query quoted (p ∷ r ∷ ps) (suc n) q (h, k) l =
      let rest = query quoted (r ∷ ps) in
      let shorter : length rest < n =
        omega (arith, l, length-append (param quoted p) (b'&' ∷ rest)) in
      rw
        (laws.token_then b'&' p.first (p.others ++ b'=' ∷ encode quoted p.value) rest
          (param_ne quoted p q h))
        (ap (λ ts. param quoted p ∷ ts) (params-query quoted (r ∷ ps) n q k shorter))

  put_params-param :
      (quoted : ℕ → Bool) (ps : List Pair) (form : Fields)
      → quoted b'%' ≡ true
      → quoted b'+' ≡ true
      → All IsPair ps
      → put_params strtok (map (param quoted) ps) form ≡ put_pairs ps form
  unfolding put_params
  put_params-param quoted [] form q r h = refl
  put_params-param quoted (p ∷ ps) form q r ((h, v), k) =
      let name = All-imp _ (λ b. b ≢ b'=') (name_of p) (λ x y. y.0) h in
      let decoded =
        ap until_nul (
          urldecode-encode quoted p.value q r
            (All-imp IsChar (λ n. n < 256) p.value (λ x y. y.1) v))
        ∙ until_nul-IsChar p.value v in
      ap (λ o. put_params strtok (map (param quoted) ps) (put_named strtok o form))
        (laws.token_then b'=' p.first p.others (encode quoted p.value) name)
      ∙ ap (λ t. put_params strtok (map (param quoted) ps) (skip_put (name_of p) (string t) form))
          decoded
      ∙ put_params-param quoted ps (skip_put (name_of p) (string p.value) form) q r k

  -- A query string of pairs, whose names are not empty and have no `=` or `&`, with the values in
  -- percent encoding where at least `%`, `+` and `&` are encoded: `parse_qstring` gives the form into
  -- which the pairs are put in their order, for any `strtok` as it is documented.
  pub parse_qstring-query :
      (quoted : ℕ → Bool) (ps : List Pair)
      → quoted b'%' ≡ true
      → quoted b'+' ≡ true
      → quoted b'&' ≡ true
      → All IsPair ps
      → parse_qstring strtok (some (query quoted ps)) ≡ put_pairs ps no_fields
  unfolding parse_qstring
  parse_qstring-query quoted ps q r a h =
      ap (λ ts. put_params strtok ts no_fields)
        (params-query quoted ps (suc (length (query quoted ps))) a h (omega arith))
      ∙ put_params-param quoted ps no_fields q r h
