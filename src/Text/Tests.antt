-- ===== src/Text/Tests.antt =====
-- Runs of the text encodings, and an application of each theorem about them.
use dbslayer.Prelude.{ℕ, ◌≡◌, refl, Bool, ◌||◌, ◌==◌, codes, arith, hex_value}
use dbslayer.Text.Url.{urldecode, urldecode_from, escape_value}
use dbslayer.Text.Url.RoundTrip.{encode, urldecode-encode}
use dbslayer.Text.Utf8.{escaped2utf8}
use dbslayer.Text.Utf8.RoundTrip.{EncodesSome, escaped2utf8-EncodesSome}

-- an escape that is not complete or not valid stays as it is
decode_run : urldecode (codes "a+b%3d%zz%4") ≡ codes "a b=%zz%4"
unfolding urldecode_from escape_value hex_value
decode_run = refl

abbrev is_reserved : ℕ → Bool
is_reserved n = n == b'%' || n == b'+'

urldecode-encode_example : urldecode (encode is_reserved (codes "1+1%")) ≡ codes "1+1%"
urldecode-encode_example =
    urldecode-encode is_reserved (codes "1+1%") refl refl
      (omega arith, (omega arith, (omega arith, (omega arith, tt))))

-- the euro sign
escaped2utf8-EncodesSome_example : EncodesSome 0x20AC (escaped2utf8 0x20AC)
escaped2utf8-EncodesSome_example = escaped2utf8-EncodesSome 0x20AC (omega arith)
