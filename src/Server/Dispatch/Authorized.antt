-- ===== src/Server/Dispatch/Authorized.antt =====
-- Who passes the check of the token.
use dbslayer.Prelude.{
  ℕ, zero, suc, ◌≡◌, ◌≢◌, ◌⊎◌, inl, inr, refl, sym, ap, ap₂, ◌∙◌, Bool, true, false, [], ◌∷◌, ◌++◌,
  Bytes, bytes_eq, starts_with, codes, if◌then◌else◌, Option, none, some, drop, All, arith, ◌↔◌,
  Bool-cases, ==_iff, subst, length,
}
use dbslayer.Http.HeaderSection.{header_get}
use dbslayer.Server.Dispatch.{
  Server, Call, Action, health, bearer_matches, is_admitted, routed, unauthorized, dispatch_path,
  request_dispatch, auth_token_matches,
}
use dbslayer.Server.Dispatch.Token.{IsByte, same_lem, auth_token_matches_iff}

abbrev bearer : Bytes
bearer = codes "Bearer "

starts_with_lem :
    (prefix text : Bytes)
    → starts_with prefix text ≡ true
    → text ≡ prefix ++ drop (length prefix) text
unfolding starts_with
starts_with_lem [] text h = refl
starts_with_lem (p ∷ prefix) [] h = absurd (ground arith)
starts_with_lem (p ∷ prefix) (c ∷ text) h =
    let same : p ≡ c = (==_iff p c).0 (ground (arith, h)) in
    let rest : starts_with prefix text ≡ true = ground (arith, h) in
    ap₂ (λ c cs. c ∷ cs) (sym same) (starts_with_lem prefix text rest)

starts_with-append : (prefix text : Bytes) → starts_with prefix (prefix ++ text) ≡ true
unfolding starts_with
starts_with-append [] text = refl
starts_with-append (p ∷ prefix) text = ground (arith, starts_with-append prefix text)

All-drop : (n : ℕ) (xs : Bytes) → All IsByte xs → All IsByte (drop n xs)
All-drop zero xs h = h
All-drop (suc n) [] h = h
All-drop (suc n) (x ∷ xs) (h, k) = All-drop n xs k

-- the header is exactly `Bearer ` and the token
bearer_matches_iff :
    (token : Bytes) (header : Option Bytes)
    → All IsByte token
    → ((text : Bytes) → header ≡ some text → All IsByte text)
    → (bearer_matches token header ≡ true) ↔ (header ≡ some (bearer ++ token))
bearer_matches_iff token none h k = (λ e. absurd (ground arith), λ e. absurd (ground arith))
bearer_matches_iff token (some text) h k = (sound_lem (starts_with bearer text) refl, complete_lem)
  where
    bytes : All IsByte (drop 7 text)
    bytes = All-drop 7 text (k text refl)

    sound_lem :
        (b : Bool)
        → starts_with bearer text ≡ b
        → (if b then auth_token_matches (drop 7 text) token else false) ≡ true
        → some text ≡ some (bearer ++ token)
    sound_lem true p e = ap some (
        starts_with_lem bearer text p
        ∙ ap (λ t. bearer ++ t) ((auth_token_matches_iff (drop 7 text) token bytes h).0 e))
    sound_lem false p e = absurd (ground arith)

    complete_lem : some text ≡ some (bearer ++ token) → bearer_matches token (some text) ≡ true
    complete_lem e =
        subst (λ o. bearer_matches token o ≡ true) (sym e)
          (same_lem (starts_with bearer (bearer ++ token)) (auth_token_matches token token)
            (starts_with-append bearer token) ((auth_token_matches_iff token token h h).1 refl))

-- The daemon has a token. A request for a path other than /health is answered with 401, unless its
-- `Authorization` header is exactly `Bearer ` and the token; with this header, and only then, it goes on
-- to the metrics, the services, the shutdown, the statistics or the files.
pub request_dispatch-authorized :
    (s : Server) (c : Call) (path token : Bytes)
    → c.path ≡ some path
    → bytes_eq path (codes "/health") ≡ false
    → s.auth_token ≡ some token
    → All IsByte token
    → ((text : Bytes) → header_get (codes "Authorization") c.headers ≡ some text → All IsByte text)
    → ((header_get (codes "Authorization") c.headers ≡ some (codes "Bearer " ++ token))
        × (request_dispatch s c ≡ routed s c path))
      ⊎ ((header_get (codes "Authorization") c.headers ≢ some (codes "Bearer " ++ token))
          × (request_dispatch s c ≡ unauthorized))
unfolding request_dispatch
request_dispatch-authorized s c path token p q t h k =
    let header = header_get (codes "Authorization") c.headers in
    let iff = bearer_matches_iff token header h k in
    let path_eq = ap (dispatch_path s c) p in
    elim (Bool-cases (bearer_matches token header)) [
      | inl e ↦ inl (
        iff.0 e,
        path_eq ∙ choose_lem _ _ true (routed s c path) q (ap (λ o. is_admitted o header) t ∙ e),
      )
      | inr e ↦ inr (
        λ o. true_false_lem (bearer_matches token header) (iff.1 o) e,
        path_eq ∙ choose_lem _ _ false (routed s c path) q (ap (λ o. is_admitted o header) t ∙ e),
      )
    ]
  where
    true_false_lem : (b : Bool) → b ≡ true → b ≡ false → ⊥
    true_false_lem b u v = ground arith

    choose_lem :
        (is_health admitted b : Bool) (x : Action)
        → is_health ≡ false
        → admitted ≡ b
        → (if is_health then health else if admitted then x else unauthorized)
          ≡ (if b then x else unauthorized)
    choose_lem is_health admitted b x u v = rw (u, v)
