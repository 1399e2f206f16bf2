-- ===== src/Server/Query/Tests.antt =====
-- A tokenizer and a query string.
use dbslayer.Prelude.{
  hex_value, ℕ, ◌≡◌, ◌≢◌, refl, ap, ◌∙◌, Bool, ◌||◌, List, [], ◌∷◌, ◌++◌, Bytes, codes, Option,
  none, some, All, arith, ◌==◌, if◌then◌else◌,
}
use dbslayer.Json.Value.{no_fields, string, field, skip_put, bytes_lt}
use dbslayer.Json.Scan.{until_nul}
use dbslayer.Text.Url.{urldecode_from, escape_value}
use dbslayer.Server.Query.{parse_qstring, params, put_params}
use dbslayer.Server.Query.RoundTrip.{IsStrtok, Pair, IsPair, query}

-- the token in front of the first separator, and the rest
abbrev with_byte : ℕ → Bytes × Bytes → Bytes × Bytes
with_byte c (token, rest) = (c ∷ token, rest)

abbrev split : ℕ → Bytes → Bytes × Bytes
split sep [] = ([], [])
split sep (c ∷ cs) = if c == sep then ([], cs) else with_byte c (split sep cs)

-- without the separators in front
abbrev pub tokenize : ℕ → Bytes → Option (Bytes × Bytes)
tokenize sep [] = none
tokenize sep (c ∷ cs) = if c == sep then tokenize sep cs else some (with_byte c (split sep cs))

pub tokenize-IsStrtok : IsStrtok tokenize
tokenize-IsStrtok = record {
  no_token = λ sep. refl;
  token_then = λ sep c cs rest h.
      token_lem sep c (cs ++ sep ∷ rest) h.0
      ∙ ap (λ s. some (with_byte c s)) (split_lem sep cs rest h.1);
  last_token =
      λ sep c cs h. token_lem sep c cs h.0 ∙ ap (λ s. some (with_byte c s)) (split_last sep cs h.1);
}
  where
    token_lem :
        (sep c : ℕ) (cs : Bytes)
        → c ≢ sep
        → tokenize sep (c ∷ cs) ≡ some (with_byte c (split sep cs))
    token_lem sep c cs h = ground arith

    split_lem :
        (sep : ℕ) (cs rest : Bytes)
        → All (λ b. b ≢ sep) cs
        → split sep (cs ++ sep ∷ rest) ≡ (cs, rest)
    split_lem sep [] rest h = ground arith
    split_lem sep (c ∷ cs) rest (h, k) = ground (arith, split_lem sep cs rest k, h)

    split_last : (sep : ℕ) (cs : Bytes) → All (λ b. b ≢ sep) cs → split sep cs ≡ (cs, [])
    split_last sep [] h = refl
    split_last sep (c ∷ cs) (h, k) = ground (arith, split_last sep cs k, h)

abbrev pub quoted : ℕ → Bool
quoted c = c == b'%' || c == b'+' || c == b'&'

abbrev pub pairs : List Pair
pairs =
    record { first = b'S'; others = codes "QL"; value = codes "a&b" }
    ∷ record { first = b'F'; others = []; value = codes "1+2=3" }
    ∷ []

pub pairs-ArePairs : All IsPair pairs
pairs-ArePairs = ground arith

query_text : query quoted pairs ≡ codes "SQL=a%26b&F=1%2b2=3"
query_text = refl

parse_qstring_lem :
    parse_qstring tokenize (some (codes "SQL=a%26b&&F=1+2"))
    ≡ field
        (codes "F")
        (string (codes "1 2"))
        (field (codes "SQL") (string (codes "a&b")) no_fields)
unfolding parse_qstring params put_params urldecode_from escape_value hex_value until_nul skip_put
    bytes_lt
parse_qstring_lem = refl
