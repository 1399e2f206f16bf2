-- ===== src/Json/Order.antt =====
-- The order of the names in an object, which `json_skip_put` keeps.
use dbslayer.Prelude.{
  sym, subst, ◌≡◌, ◌≢◌, refl, ap, true, false, [], ◌∷◌, Bytes, bytes_eq, bytes_eq_iff, Bool-cases,
  inl, inr, if◌then◌else◌, Option, none, some, arith,
}
use dbslayer.Json.Value.{Value, Fields, no_fields, field, skip_put, skip_get, bytes_lt}

-- no name stands before a smaller one
unfoldable pub NoneBelow : Bytes → Fields → Type 0
NoneBelow key no_fields = Unit
NoneBelow key (field k v fs) = (bytes_lt k key ≡ false) × NoneBelow key fs

unfoldable pub IsOrdered : Fields → Type 0
IsOrdered no_fields = Unit
IsOrdered (field k v fs) = NoneBelow k fs × IsOrdered fs

bytes_lt_asym : (a b : Bytes) → bytes_lt a b ≡ true → bytes_lt b a ≡ false
unfolding bytes_lt
bytes_lt_asym [] [] h = refl
bytes_lt_asym [] (y ∷ ys) h = refl
bytes_lt_asym (x ∷ xs) [] h = cc
bytes_lt_asym (x ∷ xs) (y ∷ ys) h = ground (arith, h, bytes_lt_asym xs ys)

-- what is not below `b`, where `b` is not below `c`, is not below `c`
pub bytes_lt_trans :
    (a b c : Bytes) → bytes_lt a b ≡ false → bytes_lt b c ≡ false → bytes_lt a c ≡ false
unfolding bytes_lt
bytes_lt_trans [] [] c h k = k
bytes_lt_trans [] (y ∷ ys) c h k = cc
bytes_lt_trans (x ∷ xs) b [] h k = refl
bytes_lt_trans (x ∷ xs) [] (z ∷ zs) h k = cc
bytes_lt_trans (x ∷ xs) (y ∷ ys) (z ∷ zs) h k = ground (arith, h, k, bytes_lt_trans xs ys zs)

NoneBelow-trans :
    (a b : Bytes) (fs : Fields) → NoneBelow b fs → bytes_lt b a ≡ false → NoneBelow a fs
unfolding NoneBelow
NoneBelow-trans a b no_fields h p = tt
NoneBelow-trans a b (field k v fs) (q, h) p = (bytes_lt_trans k b a q p, NoneBelow-trans a b fs h p)

NoneBelow-skip_put :
    (a k : Bytes) (v : Value) (fs : Fields)
    → bytes_lt k a ≡ false
    → NoneBelow a fs
    → NoneBelow a (skip_put k v fs)
unfolding NoneBelow skip_put
NoneBelow-skip_put a k v no_fields p h = (p, tt)
NoneBelow-skip_put a k v (field l w fs) p (q, h) = elim (Bool-cases (bytes_lt l k)) [
  | inl e ↦ rw e (q, NoneBelow-skip_put a k v fs p h)
  | inr e ↦ rw e (p, (q, h))
]

pub skip_put-IsOrdered :
    (k : Bytes) (v : Value) (fs : Fields) → IsOrdered fs → IsOrdered (skip_put k v fs)
unfolding IsOrdered skip_put NoneBelow
skip_put-IsOrdered k v no_fields h = (tt, tt)
skip_put-IsOrdered k v (field l w fs) (q, h) = elim (Bool-cases (bytes_lt l k)) [
  | inl e ↦ rw e (NoneBelow-skip_put l k v fs (bytes_lt_asym l k e) q, skip_put-IsOrdered k v fs h)
  | inr e ↦ rw e ((e, NoneBelow-trans k l fs q e), (q, h))
]

pub bytes_lt_self : (a : Bytes) → bytes_lt a a ≡ false
unfolding bytes_lt
bytes_lt_self [] = refl
bytes_lt_self (x ∷ xs) = ground (arith, bytes_lt_self xs)

bytes_lt_total : (a b : Bytes) → bytes_lt a b ≡ false → bytes_lt b a ≡ false → a ≡ b
unfolding bytes_lt
bytes_lt_total [] [] h k = refl
bytes_lt_total [] (y ∷ ys) h k = cc
bytes_lt_total (x ∷ xs) [] h k = cc
bytes_lt_total (x ∷ xs) (y ∷ ys) h k = ground (arith, h, k, bytes_lt_total xs ys)

ne_lem : (a b : Bytes) → a ≢ b → bytes_eq a b ≡ false
ne_lem a b n = elim (Bool-cases (bytes_eq a b)) [
  | inl e ↦ absurd (n ((bytes_eq_iff a b).0 e))
  | inr e ↦ e
]

-- `strcmp` of two names: smaller, equal or greater
data Compared (a b : Bytes) : Type 0 where
  smaller : bytes_lt a b ≡ true → bytes_eq a b ≡ false → Compared a b
  equal : a ≡ b → Compared a b
  greater :
      bytes_lt b a ≡ true
      → bytes_lt a b ≡ false
      → bytes_eq a b ≡ false
      → bytes_eq b a ≡ false
      → Compared a b

compare_lem : (a b : Bytes) → Compared a b
compare_lem a b = elim (Bool-cases (bytes_lt a b)) [
  | inl e ↦ smaller e (ne_lem a b (λ p. cc (bytes_lt_self b, ap (λ x. bytes_lt x b) p, e)))
  | inr e ↦ elim (Bool-cases (bytes_lt b a)) [
    | inl f ↦
        greater f e (ne_lem a b (λ p. cc (bytes_lt_self b, ap (λ x. bytes_lt b x) p, f)))
          (ne_lem b a (λ p. cc (bytes_lt_self b, ap (λ x. bytes_lt b x) p, f)))
    | inr f ↦ equal (bytes_lt_total a b e f)
  ]
]

self_lem : (a : Bytes) → bytes_eq a a ≡ true
self_lem a = (bytes_eq_iff a a).1 refl

-- the skip_put name stands before names that are not smaller, `other` is what they give
first_lem :
    (name key : Bytes) (v : Value) (other : Option Value)
    → (bytes_lt name key ≡ true → other ≡ none)
    → (if bytes_lt key name then other else if bytes_eq name key then some v else none)
      ≡ (if bytes_eq key name then some v else other)
first_lem name key v other h = elim (compare_lem key name) [
  | smaller l n ↦ rw l (rw n)
  | equal e ↦
      subst
        (λ x.
          (if bytes_lt key x then other else if bytes_eq x key then some v else none)
          ≡ (if bytes_eq key x then some v else other))
        e (rw (bytes_lt_self key) (rw (self_lem key)))
  | greater g l n m ↦ rw l (rw m (rw n (sym (h g))))
]

behind_lem :
    (name key k : Bytes) (w : Value) (other : Option Value)
    → bytes_lt k key ≡ false
    → bytes_lt name key ≡ true
    → (if bytes_lt k name then other else if bytes_eq name k then some w else none) ≡ none
behind_lem name key k w other h l =
    rw (bytes_lt_trans k key name h (bytes_lt_asym name key l))
      (rw (ne_lem name k (λ e. cc (ap (λ x. bytes_lt x key) e, h, l))))

-- a name that is smaller than the skip_put one stands before it
before_lem :
    (name key k : Bytes) (v w : Value) (old new : Option Value)
    → bytes_lt k key ≡ true
    → new ≡ (if bytes_eq key name then some v else old)
    → (if bytes_lt k name then new else if bytes_eq name k then some w else none) ≡ (
        if bytes_eq key name
        then some v
        else if bytes_lt k name
        then old
        else if bytes_eq name k
        then some w
        else none)
before_lem name key k v w old new h e = elim (Bool-cases (bytes_eq key name)) [
  | inl q ↦
      let smaller_eq : bytes_lt k name ≡ true =
        cc (ap (bytes_lt k) ((bytes_eq_iff key name).0 q), h) in
      rw e (rw q (rw smaller_eq))
  | inr q ↦ rw e (rw q)
]

-- Names are found by `strcmp`: a name that was skip_put stands for the value that was skip_put last, and the
-- other names for what they stood for before.
pub skip_get-skip_put :
    (name key : Bytes) (v : Value) (fs : Fields)
    → skip_get name (skip_put key v fs) ≡ (if bytes_eq key name then some v else skip_get name fs)
unfolding skip_get skip_put
skip_get-skip_put name key v no_fields = first_lem name key v none (λ _. refl)
skip_get-skip_put name key v (field k w fs) = elim (Bool-cases (bytes_lt k key)) [
  | inl h ↦
      rw h (before_lem name key k v w (skip_get name fs) _ h (skip_get-skip_put name key v fs))
  | inr h ↦ rw h (first_lem name key v _ (λ l. behind_lem name key k w (skip_get name fs) h l))
]
