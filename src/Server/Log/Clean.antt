-- ===== src/Server/Log/Clean.antt =====
-- What `slayer_log_sanitize` lets through.
use dbslayer.Prelude.{ℕ, ◌≤◌, ◌≡◌, ◌≢◌, refl, ap, ap₂, suc, [], ◌∷◌, Bytes, length, All, arith}
use dbslayer.Server.Log.{sanitize, sanitize_byte}

-- no control character: no line end, in particular
abbrev pub IsClean : ℕ → Type 0
IsClean c = (0x20 ≤ c) × (c ≢ 0x7f)

clean_lem : (c : ℕ) → IsClean (sanitize_byte c)
clean_lem c = (ground arith, ground arith)

again_lem : (c : ℕ) → sanitize_byte (sanitize_byte c) ≡ sanitize_byte c
again_lem c = ground arith

-- A field of the log holds no control character, so that no request can forge a line; it is as long
-- as the text it is made from, and a second pass changes nothing.
pub sanitize-IsClean :
    (text : Bytes)
    → All IsClean (sanitize text)
      × (length (sanitize text) ≡ length text)
      × (sanitize (sanitize text) ≡ sanitize text)
unfolding sanitize
sanitize-IsClean [] = (tt, refl, refl)
sanitize-IsClean (c ∷ cs) =
    let r = sanitize-IsClean cs in
    ((clean_lem c, r.0), ap suc r.1, ap₂ (λ b bs. b ∷ bs) (again_lem c) r.2)
