-- ===== src/Json/Skip/Puts.antt =====
-- common/json_skip.c: the levels behind `json_skip_put`.
use dbslayer.Prelude.{
  ℕ, true, false, Bool-cases, List, [], ◌∷◌, Bytes, ◌==◌, All, some, ◌≡◌, refl, ◌∙◌, inl, inr,
  arith,
}
use dbslayer.Json.Value.{bytes_lt}
use dbslayer.Json.Skip.{Node, NextList, put_behind}
use dbslayer.Json.Skip.Levels.{Chain, last_smaller, put_node}

abbrev pub Without : ℕ → List Node → Type 0
Without i = All (λ (n : Node). (n.id == i) ≡ false)

eq_self : (n : ℕ) → (n == n) ≡ true
eq_self n = ground arith

eq_sym : (m n : ℕ) → (m == n) ≡ false → (n == m) ≡ false
eq_sym m n h = ground (arith, h)

-- the three kinds of pointers behind a put
rest_lem :
    (h mark : ℕ) (fresh : Node) (next : NextList) (a : ℕ)
    → (a == fresh.id) ≡ false
    → (a == mark) ≡ false
    → put_behind h mark fresh next h a ≡ next h a
rest_lem h mark fresh next a x y = rw (eq_self h) (rw x (rw y refl))

mark_lem :
    (h : ℕ) (fresh : Node) (next : NextList) (a : ℕ)
    → (a == fresh.id) ≡ false
    → put_behind h a fresh next h a ≡ some fresh
mark_lem h fresh next a x = rw (eq_self h) (rw x (rw (eq_self a) refl))

fresh_lem :
    (h mark : ℕ) (fresh : Node) (next : NextList)
    → put_behind h mark fresh next h fresh.id ≡ next h mark
fresh_lem h mark fresh next = rw (eq_self h) (rw (eq_self fresh.id) refl)

-- another level is left as it is
pub put_behind-other :
    (h l mark : ℕ) (fresh : Node) (next : NextList) (a : ℕ) (ns : List Node)
    → (l == h) ≡ false
    → Chain next l a ns
    → Chain (put_behind h mark fresh next) l a ns
unfolding Chain
put_behind-other h l mark fresh next a [] e c = rw e c
put_behind-other h l mark fresh next a (n ∷ ns) e (f, d, c) =
    (rw e f, d, put_behind-other h l mark fresh next n.id ns e c)

pub put_node-All :
    (P : Node → Type 0) (fresh : Node) (ns : List Node)
    → P fresh
    → All P ns
    → All P (put_node fresh ns)
unfolding put_node
put_node-All P fresh [] p ps = (p, tt)
put_node-All P fresh (n ∷ ns) p (q, qs) = elim (Bool-cases (bytes_lt n.key fresh.key)) [
  | inl e ↦ rw e (q, put_node-All P fresh ns p qs)
  | inr e ↦ rw e (p, (q, qs))
]

pub last_smaller_lem :
    (key : Bytes) (a b : ℕ) (ns : List Node)
    → (b == a) ≡ false
    → Without a ns
    → (a == last_smaller key b ns) ≡ false
unfolding last_smaller
last_smaller_lem key a b [] x w = eq_sym b a x
last_smaller_lem key a b (n ∷ ns) x (w, ws) = elim (Bool-cases (bytes_lt n.key key)) [
  | inl e ↦ rw e (last_smaller_lem key a n.id ns w ws)
  | inr e ↦ rw e (eq_sym b a x)
]

-- so is what stands behind the new node
put_behind-behind :
    (h mark : ℕ) (fresh : Node) (next : NextList) (a : ℕ) (ns : List Node)
    → (a == fresh.id) ≡ false
    → (a == mark) ≡ false
    → Without fresh.id ns
    → Without mark ns
    → Chain next h a ns
    → Chain (put_behind h mark fresh next) h a ns
unfolding Chain
put_behind-behind h mark fresh next a [] x y w v c = rest_lem h mark fresh next a x y ∙ c
put_behind-behind h mark fresh next a (n ∷ ns) x y (w, ws) (v, vs) (f, d, c) = (
  rest_lem h mark fresh next a x y ∙ f,
  d,
  put_behind-behind h mark fresh next n.id ns w v ws vs c,
)

-- the new node in its level
pub put_behind-put_node :
    (h : ℕ) (fresh : Node) (next : NextList) (a : ℕ) (ns : List Node)
    → (a == fresh.id) ≡ false
    → Without fresh.id ns
    → Chain next h a ns
    → Chain (put_behind h (last_smaller fresh.key a ns) fresh next) h a (put_node fresh ns)
unfolding Chain last_smaller put_node
put_behind-put_node h fresh next a [] x w c =
    (mark_lem h fresh next a x, (eq_sym a fresh.id x, tt), fresh_lem h a fresh next ∙ c)
put_behind-put_node h fresh next a (n ∷ ns) x (w, ws) (f, d, c) =
    elim (Bool-cases (bytes_lt n.key fresh.key)) [
      | inl l ↦ rw l (
        rest_lem h (last_smaller fresh.key n.id ns) fresh next a x
              (last_smaller_lem fresh.key a n.id ns d.0 d.1)
            ∙ f,
        (d.0, put_node-All (λ m. (m.id == a) ≡ false) fresh ns (eq_sym a fresh.id x) d.1),
        put_behind-put_node h fresh next n.id ns w ws c,
      )
      | inr l ↦ rw l (
        mark_lem h fresh next a x,
        (eq_sym a fresh.id x, d),
        (
          fresh_lem h a fresh next ∙ f,
          (w, ws),
          put_behind-behind h a fresh next n.id ns w d.0 ws d.1 c,
        ),
      )
    ]
