-- ===== src/Server/Daemon/Answers.antt =====
-- What a client hears that sends a JSON statement to the daemon.
use dbslayer.Prelude.{
  ℕ, ◌≤◌, ◌<◌, ◌≡◌, ap, ◌∙◌, Bool, true, false, Bytes, bytes_eq, codes, Option, some, if◌then◌else◌,
}
use dbslayer.Text.Url.{urldecode}
use dbslayer.Text.Url.RoundTrip.{encode, urldecode-encode}
use dbslayer.Json.Value.{Value, Fields, object, skip_get}
use dbslayer.Json.Print.{print}
use dbslayer.Json.Scan.{until_nul}
use dbslayer.Json.Parse.{decode_json, max_depth}
use dbslayer.Json.RoundTrip.Strings.{IsChar}
use dbslayer.Json.RoundTrip.Shape.{IsPlain, depth}
use dbslayer.Json.RoundTrip.Chars.{print-IsChar}
use dbslayer.Json.RoundTrip.Values.{decode_json-print}
use dbslayer.Server.Query.RoundTrip.{until_nul-IsChar, All-imp}
use dbslayer.Server.Daemon.{
  Request, Response, Daemon, statement, answer, dbjson_handler, is_xml, or_empty,
}

module _ (strtok : ℕ → Bytes → Option (Bytes × Bytes)) (strtod : Bytes → ℕ × ℕ)
    (print_double print_g : ℕ → Bytes) (dbexecute : Fields → Value) where
  -- the text of a plain value, sent in percent encoding, is the statement
  statement-encode :
      (quoted : ℕ → Bool) (v : Value) (r : Request)
      → quoted b'%' ≡ true
      → quoted b'+' ≡ true
      → IsPlain v
      → depth v ≤ max_depth
      → bytes_eq r.path (codes "/dbform") ≡ false
      → r.query ≡ some (encode quoted (print print_double v))
      → statement strtok strtod print_double print_g dbexecute r ≡ some v
  unfolding statement
  statement-encode quoted v r p q h l path e =
      let chars = print-IsChar print_double v h in
      let decoded =
        ap until_nul (
          urldecode-encode quoted (print print_double v) p q
            (All-imp IsChar (λ n. n < 256) (print print_double v) (λ x y. y.1) chars))
        ∙ until_nul-IsChar (print print_double v) chars in
      no_form_lem (bytes_eq r.path (codes "/dbform")) _ _ path
      ∙ ap (λ query. decode_json strtod (until_nul (urldecode (or_empty query)))) e
      ∙ ap (decode_json strtod) decoded
      ∙ decode_json-print strtod print_double v h l
    where
      no_form_lem : (b : Bool) (x y : Option Value) → b ≡ false → (if b then x else y) ≡ y
      no_form_lem b x y e = rw e

  json_lem : (b : Bool) (x y : Response) → b ≡ false → (if b then x else y) ≡ y
  json_lem b x y e = rw e

  -- A client sends an object in JSON to a path other than /dbform, in percent encoding where `%` and `+` at
  -- least are encoded. The object is plain (its strings are C strings, its names are in order, it has
  -- no double and no number beyond a long), nested at most 64 deep, and does not ask for XML. The
  -- database is asked for just this object, and if its result is plain and nested at most 64 deep, then
  -- the client decodes this result from the body.
  pub dbjson_handler-request :
      (quoted : ℕ → Bool) (stmt : Fields) (r : Request) (d : Daemon)
      → quoted b'%' ≡ true
      → quoted b'+' ≡ true
      → IsPlain (object stmt)
      → depth (object stmt) ≤ max_depth
      → bytes_eq r.path (codes "/dbform") ≡ false
      → r.query ≡ some (encode quoted (print print_double (object stmt)))
      → is_xml (skip_get (codes "FORMAT") stmt) ≡ false
      → IsPlain (dbexecute stmt)
      → depth (dbexecute stmt) ≤ max_depth
      → decode_json strtod
          (dbjson_handler strtok strtod print_double print_g dbexecute true r d).0.body
        ≡ some (dbexecute stmt)
  unfolding dbjson_handler
  dbjson_handler-request quoted stmt r d p q h l path e x k m =
      ap
        (λ s.
          decode_json strtod
            (answer strtok strtod print_double print_g dbexecute true s r d).0.body)
        (statement-encode quoted (object stmt) r p q h l path e)
      ∙ ap (λ (response : Response). decode_json strtod response.body)
          (json_lem (is_xml (skip_get (codes "FORMAT") stmt)) _ _ x)
      ∙ decode_json-print strtod print_double (dbexecute stmt) k m
