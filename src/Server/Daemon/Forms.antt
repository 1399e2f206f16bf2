-- ===== src/Server/Daemon/Forms.antt =====
-- The statement of a request to /dbform.
use dbslayer.Prelude.{
  ℕ, ◌≡◌, refl, sym, ap, ◌∙◌, Bool, true, false, List, [], ◌∷◌, Bytes, bytes_eq, bytes_eq_iff,
  codes, Bool-cases, inl, inr, if◌then◌else◌, Option, none, some, All, arith,
}
use dbslayer.Json.Value.{
  Value, Fields, object, string, no_fields, field, skip_put, skip_get, bytes_lt,
}
use dbslayer.Json.Order.{skip_get-skip_put, bytes_lt_self}
use dbslayer.Server.Query.{parse_qstring}
use dbslayer.Server.Query.RoundTrip.{
  IsStrtok, Pair, name_of, IsPair, query, put_pairs, parse_qstring-query,
}
use dbslayer.Server.Daemon.{Request, statement, json_object_of}

-- the value of the first pair with a name
abbrev pub first_value : Bytes → List Pair → Option Value → Option Value
first_value name [] other = other
first_value name (p ∷ ps) other =
    if bytes_eq (name_of p) name then some (string p.value) else first_value name ps other

-- the value of the last node with a name
abbrev last_value : Bytes → Fields → Option Value → Option Value
last_value name no_fields other = other
last_value name (field k v fs) other =
    last_value name fs (if bytes_eq k name then some v else other)

-- a smaller name is another one
smaller_ne : (a b : Bytes) → bytes_lt a b ≡ true → bytes_eq a b ≡ false
smaller_ne a b h = elim (Bool-cases (bytes_eq a b)) [
  | inl e ↦ cc (bytes_lt_self b, ap (λ x. bytes_lt x b) ((bytes_eq_iff a b).0 e), h)
  | inr e ↦ e
]

last_value-skip_put :
    (name k : Bytes) (v : Value) (fs : Fields) (other : Option Value)
    → last_value name (skip_put k v fs) other
      ≡ last_value name fs (if bytes_eq k name then some v else other)
unfolding skip_put
last_value-skip_put name k v no_fields other = refl
last_value-skip_put name k v (field l w fs) other = elim (Bool-cases (bytes_lt l k)) [
  | inl e ↦ rw e (
      last_value-skip_put name k v fs (if bytes_eq l name then some w else other)
      ∙ ap (last_value name fs) (swap_lem (bytes_eq k name) (bytes_eq l name) refl refl e))
  | inr e ↦ rw e refl
]
  where
    swap_lem :
        (b c : Bool)
        → bytes_eq k name ≡ b
        → bytes_eq l name ≡ c
        → bytes_lt l k ≡ true
        → (if b then some v else if c then some w else other)
          ≡ (if c then some w else if b then some v else other)
    swap_lem true true p q e =
        let same = (bytes_eq_iff k name).0 p ∙ sym ((bytes_eq_iff l name).0 q) in
        absurd (ground (arith, smaller_ne l k e, (bytes_eq_iff l k).1 (sym same)))
    swap_lem true false p q e = refl
    swap_lem false true p q e = refl
    swap_lem false false p q e = refl

last_value-put_pairs :
    (name : Bytes) (ps : List Pair) (form : Fields) (other : Option Value)
    → last_value name (put_pairs ps form) other ≡ last_value name form (first_value name ps other)
last_value-put_pairs name [] form other = refl
last_value-put_pairs name (p ∷ ps) form other =
    last_value-put_pairs name ps (skip_put (name_of p) (string p.value) form) other
    ∙ last_value-skip_put name (name_of p) (string p.value) form (first_value name ps other)

skip_get-json_object_of :
    (name : Bytes) (form acc : Fields)
    → skip_get name (json_object_of form acc) ≡ last_value name form (skip_get name acc)
unfolding json_object_of
skip_get-json_object_of name no_fields acc = refl
skip_get-json_object_of name (field k v form) acc =
    skip_get-json_object_of name form (skip_put k v acc)
    ∙ ap (last_value name form) (skip_get-skip_put name k v acc)

module _ (strtok : ℕ → Bytes → Option (Bytes × Bytes)) (strtod : Bytes → ℕ × ℕ)
    (print_double print_g : ℕ → Bytes) (dbexecute : Fields → Value) where
  -- A form of pairs, whose names are not empty and have no `=` or `&`, is sent to /dbform with the values
  -- in percent encoding where at least `%`, `+` and `&` are encoded. For any `strtok` as it is
  -- documented, the statement is an object that gives for each name the value of the first pair with
  -- that name, and nothing for the other names.
  pub statement-form :
      (quoted : ℕ → Bool) (ps : List Pair) (r : Request)
      → IsStrtok strtok
      → quoted b'%' ≡ true
      → quoted b'+' ≡ true
      → quoted b'&' ≡ true
      → All IsPair ps
      → bytes_eq r.path (codes "/dbform") ≡ true
      → r.query ≡ some (query quoted ps)
      → (stmt : Fields) × (statement strtok strtod print_double print_g dbexecute r
          ≡ some (object stmt))
        × ((name : Bytes) → skip_get name stmt ≡ first_value name ps none)
  unfolding statement skip_get
  statement-form quoted ps r laws p q a h path e =
      let form = ap (parse_qstring strtok) e ∙ parse_qstring-query strtok laws quoted ps p q a h in
      (
        json_object_of (put_pairs ps no_fields) no_fields,
        form_lem (bytes_eq r.path (codes "/dbform")) _ _ path
            ∙ ap (λ f. some (object (json_object_of f no_fields))) form,
        λ name.
            skip_get-json_object_of name (put_pairs ps no_fields) no_fields
            ∙ last_value-put_pairs name ps no_fields none,
      )
    where
      form_lem : (b : Bool) (x y : Option Value) → b ≡ true → (if b then x else y) ≡ x
      form_lem b x y e = rw e
