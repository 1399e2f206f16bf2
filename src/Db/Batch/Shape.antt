-- ===== src/Db/Batch/Shape.antt =====
-- db/dbaccess.c: what a client gets for the statements of a query.
use dbslayer.Prelude.{
  ℕ, Bool, true, false, List, [], ◌∷◌, ◌++◌, append_assoc, append-nil, Bytes, ◌≡◌, refl, sym, subst,
  Option, none, some,
}
use dbslayer.Json.Value.{Value, object, array}
use dbslayer.Db.Table.{array_of, dbresult2json}
use dbslayer.Db.Batch.{
  Stored, stored, affected, store_failed, Batch, last, more, broken, Results, no_results,
  dbaffected2json, dbprocess_result, results_loop, published, with_affected, with_stored, Looped,
}

-- nothing, a bare value, or an array
abbrev pub bare_or_array : List Value → Option Value
bare_or_array [] = none
bare_or_array (v ∷ []) = some v
bare_or_array (v ∷ w ∷ vs) = some (array (array_of (v ∷ w ∷ vs)))

-- what a statement reports
unfoldable pub reported : (Bytes → ℕ) → Stored → List Value
reported atof store_failed = []
reported atof (affected rows id) = dbaffected2json rows id ∷ []
reported atof (stored r) = object (dbresult2json atof r) ∷ []

abbrev pub is_stored : Stored → Bool
is_stored store_failed = false
is_stored s = true

-- what the statements up to the first failure report
unfoldable pub reports : (Bytes → ℕ) → Batch → List Value
unfolding reported
reports atof (last s) = reported atof s
reports atof (broken s) = reported atof s
reports atof (more store_failed rest) = []
reports atof (more (affected rows id) rest) = dbaffected2json rows id ∷ reports atof rest
reports atof (more (stored r) rest) = object (dbresult2json atof r) ∷ reports atof rest

-- if a statement fails
unfoldable pub fails : Batch → Bool
fails (last store_failed) = true
fails (last s) = false
fails (broken s) = true
fails (more store_failed rest) = true
fails (more s rest) = fails rest

-- the two variables stand for the values that came
unfoldable Holds : List Value → Results → Type 0
Holds [] acc = acc ≡ no_results
Holds (v ∷ []) acc = acc ≡ record { sql_result = some v; all_result = none }
Holds (v ∷ w ∷ vs) acc =
    (x : Value) × (acc ≡ record { sql_result = some x; all_result = some (v ∷ w ∷ vs) })

Holds-published :
    (vs : List Value) (acc : Results)
    → Holds vs acc
    → published acc.all_result acc.sql_result ≡ bare_or_array vs
unfolding Holds
Holds-published [] acc h = rw h refl
Holds-published (v ∷ []) acc h = rw h refl
Holds-published (v ∷ w ∷ vs) acc h = rw h.1 refl

Holds-with_affected :
    (v : Value) (vs : List Value) (acc : Results)
    → Holds vs acc
    → Holds (vs ++ v ∷ []) (with_affected v acc)
unfolding Holds
Holds-with_affected v [] acc h = rw h refl
Holds-with_affected v (x ∷ []) acc h = rw h (_, refl)
Holds-with_affected v (x ∷ y ∷ vs) acc h = rw h.1 (_, refl)

Holds-with_stored :
    (v : Value) (vs : List Value) (acc : Results)
    → Holds vs acc
    → Holds (vs ++ v ∷ []) (with_stored v acc.sql_result acc.all_result)
unfolding Holds
Holds-with_stored v [] acc h = rw h refl
Holds-with_stored v (x ∷ []) acc h = rw h (_, refl)
Holds-with_stored v (x ∷ y ∷ vs) acc h = rw h.1 (_, refl)

Holds-nil : (vs : List Value) (acc : Results) → Holds vs acc → Holds (vs ++ []) acc
Holds-nil vs acc = subst (λ l. Holds l acc) (sym (append-nil vs))

Holds-cons :
    (v : Value) (vs tail : List Value) (acc : Results)
    → Holds ((vs ++ v ∷ []) ++ tail) acc
    → Holds (vs ++ v ∷ tail) acc
Holds-cons v vs tail acc = subst (λ l. Holds l acc) (append_assoc vs (v ∷ []) tail)

-- the loop from a state for `vs` on
Ends : (atof : Bytes → ℕ) → List Value → Batch → Looped → Type 0
unfolding Holds
Ends atof vs b end = Holds (vs ++ reports atof b) end.0 × (end.1 ≡ fails b)

module _ (atof : Bytes → ℕ) where
  Ends-results_loop :
      (b : Batch) (vs : List Value) (acc : Results)
      → Holds vs acc
      → Ends atof vs b (results_loop atof b acc)
  unfolding Ends results_loop dbprocess_result reports reported fails
  Ends-results_loop (last store_failed) vs acc h = (Holds-nil vs acc h, refl)
  Ends-results_loop (last (affected rows id)) vs acc h = (Holds-with_affected _ vs acc h, refl)
  Ends-results_loop (last (stored r)) vs acc h = (Holds-with_stored _ vs acc h, refl)
  Ends-results_loop (broken store_failed) vs acc h = (Holds-nil vs acc h, refl)
  Ends-results_loop (broken (affected rows id)) vs acc h = (Holds-with_affected _ vs acc h, refl)
  Ends-results_loop (broken (stored r)) vs acc h = (Holds-with_stored _ vs acc h, refl)
  Ends-results_loop (more store_failed rest) vs acc h = (Holds-nil vs acc h, refl)
  Ends-results_loop (more (affected rows id) rest) vs acc h =
      let v = dbaffected2json rows id in
      let end = Ends-results_loop rest (vs ++ v ∷ []) _ (Holds-with_affected v vs acc h) in
      (Holds-cons v vs (reports atof rest) _ end.0, end.1)
  Ends-results_loop (more (stored r) rest) vs acc h =
      let v = object (dbresult2json atof r) in
      let end = Ends-results_loop rest (vs ++ v ∷ []) _ (Holds-with_stored v vs acc h) in
      (Holds-cons v vs (reports atof rest) _ end.0, end.1)

  -- The loop over the results of a query, whatever they are, publishes the reports of the statements before the
  -- first failure, in their order: nothing for none, a bare value for one and an array for more. It reports an
  -- error just when a statement fails.
  pub results_loop-bare_or_array :
      (b : Batch)
      → let end = results_loop atof b no_results in
        (published end.0.all_result end.0.sql_result ≡ bare_or_array (reports atof b))
        × (end.1 ≡ fails b)
  unfolding Holds Ends
  results_loop-bare_or_array b =
      let end = Ends-results_loop b [] no_results refl in
      (Holds-published (reports atof b) _ end.0, end.1)
