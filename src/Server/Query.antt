-- ===== src/Server/Query.antt =====
-- common/qstring_parse.c: `parse_qstring`. `apr_strtok` is an argument: of a separator and a text it
-- gives the first token and the text behind it. A value is the string that the form holds.
pub mod RoundTrip
pub mod Tests
use dbslayer.Prelude.{ℕ, zero, suc, List, [], ◌∷◌, Bytes, length, Option, none, some}
use dbslayer.Text.Url.{urldecode}
use dbslayer.Json.Value.{Fields, no_fields, string, skip_put}
use dbslayer.Json.Scan.{until_nul}

module _ (strtok : ℕ → Bytes → Option (Bytes × Bytes)) where
  abbrev token_and : Option (Bytes × Bytes) → (Bytes → List Bytes) → List Bytes
  token_and none others = []
  token_and (some (token, rest)) others = token ∷ others rest

  -- the first loop; a token takes at least one byte, so that the length is enough fuel
  unfoldable pub params : ℕ → Bytes → List Bytes
  params zero text = []
  params (suc fuel) text = token_and (strtok b'&' text) (params fuel)

  abbrev pub put_named : Option (Bytes × Bytes) → Fields → Fields
  put_named none form = form
  put_named (some (name, value)) form = skip_put name (string (until_nul (urldecode value))) form

  -- the second loop
  unfoldable pub put_params : List Bytes → Fields → Fields
  put_params [] form = form
  put_params (p ∷ ps) form = put_params ps (put_named (strtok b'=' p) form)

  unfoldable pub parse_qstring : Option Bytes → Fields
  unfolding params put_params
  parse_qstring none = no_fields
  parse_qstring (some qstring) = put_params (params (suc (length qstring)) qstring) no_fields
