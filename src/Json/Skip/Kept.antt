-- ===== src/Json/Skip/Kept.antt =====
-- common/json_skip.c: `json_skip_put` keeps a skip list well-formed.
use dbslayer.Prelude.{
  ℕ, zero, suc, ◌-◌, ◌/◌, ◌≤◌, ◌<◌, Bool, true, false, Bool-cases, List, [], ◌∷◌, Bytes, ◌==◌, ltb,
  length, All, if◌then◌else◌, ◌≡◌, refl, sym, ap, subst, ◌⊎◌, inl, inr, arith,
}
use dbslayer.Json.Value.{Value, bytes_lt}
use dbslayer.Json.Order.{IsOrdered, skip_put-IsOrdered}
use dbslayer.Json.Skip.{
  Node, NextList, Skip, json_skip_put, fix_at, node_height, height_more, put_behind, link,
}
use dbslayer.Json.Skip.Levels.{fields_of, fields_of-put_node, Chain, last_smaller, put_node, Has}
use dbslayer.Json.Skip.Puts.{Without, put_behind-other, put_behind-put_node, put_node-All}
use dbslayer.Json.Skip.Search.{IsSkip, fix_at-last_smaller}

-- the levels from `h` on are left as they are
link-above :
    (h : ℕ) (fix : ℕ → ℕ) (fresh : Node) (next : NextList) (l : ℕ) (ns : List Node)
    → h ≤ l
    → Chain next l 0 ns
    → Chain (link h fix fresh next) l 0 ns
unfolding link
link-above zero fix fresh next l ns k c = c
link-above (suc h) fix fresh next l ns k c =
    link-above h fix fresh (put_behind h (fix h) fresh next) l ns (omega (arith, k))
      (put_behind-other h l (fix h) fresh next 0 ns (ground (arith, k)) c)

-- the levels below `h` have the new node
link-below :
    (h : ℕ) (fix : ℕ → ℕ) (fresh : Node) (next : NextList) (l : ℕ) (ns : List Node)
    → l < h
    → fix l ≡ last_smaller fresh.key 0 ns
    → (0 == fresh.id) ≡ false
    → Without fresh.id ns
    → Chain next l 0 ns
    → Chain (link h fix fresh next) l 0 (put_node fresh ns)
unfolding link
link-below zero fix fresh next l ns k f z w c = absurd (omega (arith, k))
link-below (suc h) fix fresh next l ns k f z w c = elim (Bool-cases (l == h)) [
  | inl e ↦
      let here : l ≡ h = ground (arith, e) in
      link-above h fix fresh (put_behind h (fix h) fresh next) l (put_node fresh ns)
        (omega (arith, here))
        (subst (λ h. Chain (put_behind h (fix h) fresh next) l 0 (put_node fresh ns)) here
          (subst (λ m. Chain (put_behind l m fresh next) l 0 (put_node fresh ns)) (sym f)
            (put_behind-put_node l fresh next 0 ns z w c)))
  | inr e ↦
      link-below h fix fresh (put_behind h (fix h) fresh next) l ns (ground (arith, e, k)) f z w
        (put_behind-other h l (fix h) fresh next 0 ns e c)
]

split_lem :
    (b : Bool) (n fresh x : Node) (ns rest : List Node)
    → (Has n rest → (n ≡ fresh) ⊎ Has n ns)
    → Has n (if b then x ∷ rest else fresh ∷ x ∷ ns)
    → (n ≡ fresh) ⊎ Has n (x ∷ ns)
unfolding Has
split_lem true n fresh x ns rest k (inl e) = inr (inl e)
split_lem true n fresh x ns rest k (inr h) = elim (k h) [ inl e ↦ inl e | inr q ↦ inr (inr q) ]
split_lem false n fresh x ns rest k (inl e) = inl e
split_lem false n fresh x ns rest k (inr h) = inr h

join_lem :
    (b : Bool) (n fresh x : Node) (ns rest : List Node)
    → ((n ≡ fresh) ⊎ Has n ns → Has n rest)
    → (n ≡ fresh) ⊎ Has n (x ∷ ns)
    → Has n (if b then x ∷ rest else fresh ∷ x ∷ ns)
unfolding Has
join_lem true n fresh x ns rest k (inl e) = inr (k (inl e))
join_lem true n fresh x ns rest k (inr (inl e)) = inl e
join_lem true n fresh x ns rest k (inr (inr h)) = inr (k (inr h))
join_lem false n fresh x ns rest k (inl e) = inl e
join_lem false n fresh x ns rest k (inr h) = inr h

Has-put_node :
    (n fresh : Node) (ns : List Node) → Has n (put_node fresh ns) → (n ≡ fresh) ⊎ Has n ns
unfolding put_node Has
Has-put_node n fresh [] (inl e) = inl e
Has-put_node n fresh [] (inr h) = inr h
Has-put_node n fresh (x ∷ ns) h =
    split_lem (bytes_lt x.key fresh.key) n fresh x ns (put_node fresh ns) (Has-put_node n fresh ns)
      h

put_node-Has :
    (n fresh : Node) (ns : List Node) → (n ≡ fresh) ⊎ Has n ns → Has n (put_node fresh ns)
unfolding put_node Has
put_node-Has n fresh [] h = h
put_node-Has n fresh (x ∷ ns) h =
    join_lem (bytes_lt x.key fresh.key) n fresh x ns (put_node fresh ns) (put_node-Has n fresh ns) h

length-put_node : (fresh : Node) (ns : List Node) → length (put_node fresh ns) ≡ suc (length ns)
unfolding put_node
length-put_node fresh [] = refl
length-put_node fresh (n ∷ ns) = elim (Bool-cases (bytes_lt n.key fresh.key)) [
  | inl e ↦ rw e (ap suc (length-put_node fresh ns))
  | inr e ↦ rw e refl
]

height_more_le : (n r : ℕ) → height_more n r ≤ n
unfolding height_more
height_more_le zero r = omega arith
height_more_le (suc n) r = ground (arith, height_more_le n (r / 2))

node_height_le : (height r : ℕ) → 0 < height → node_height height r ≤ height
node_height_le height r k = omega (arith, height_more_le (height - 1) r, k)

Without-new : (count : ℕ) (ns : List Node) → All (λ n. n.id ≤ count) ns → Without (suc count) ns
Without-new count [] h = tt
Without-new count (n ∷ ns) (h, hs) = (ground (arith, h), Without-new count ns hs)

counted_more :
    (count : ℕ) (ns : List Node) → All (λ n. n.id ≤ count) ns → All (λ n. n.id ≤ suc count) ns
counted_more count [] h = tt
counted_more count (n ∷ ns) (h, hs) = (omega (arith, h), counted_more count ns hs)

-- the levels behind a put of a node on `top` levels
abbrev pub placed : ℕ → Node → (ℕ → List Node) → ℕ → List Node
placed top fresh level h = if ltb h top then put_node fresh (level h) else level h

-- what holds of a level with and without the node holds behind the put
placed_lem :
    (P : ℕ → List Node → Type 0) (top : ℕ) (fresh : Node) (level : ℕ → List Node) (h : ℕ)
    → (h < top → P h (put_node fresh (level h)))
    → (top ≤ h → P h (level h))
    → P h (placed top fresh level h)
placed_lem P top fresh level h put kept = elim (Bool-cases (ltb h top)) [
  | inl e ↦ rw e (put (ground (arith, e)))
  | inr e ↦ rw e (kept (ground (arith, e)))
]

placed-Has :
    (top : ℕ) (fresh : Node) (level : ℕ → List Node) (h : ℕ) (n : Node)
    → (Has n (level (suc h)) → Has n (level h))
    → Has n (placed top fresh level (suc h))
    → Has n (placed top fresh level h)
placed-Has top fresh level h n below = elim (Bool-cases (ltb (suc h) top)) [
  | inl e ↦
      let lower : ltb h top ≡ true = ground (arith, e) in
      rw e (
        rw lower (λ q.
          put_node-Has n fresh (level h) (elim (Has-put_node n fresh (level (suc h)) q) [
            | inl f ↦ inl f
            | inr f ↦ inr (below f)
          ])))
  | inr e ↦ elim (Bool-cases (ltb h top)) [
    | inl f ↦ rw e (rw f (λ q. put_node-Has n fresh (level h) (inr (below q))))
    | inr f ↦ rw e (rw f below)
  ]
]

abbrev pub new_node : Bytes → Value → Skip → Node
new_node key value s = record { id = suc s.node_count; key = key; value = value }

pub json_skip_put-IsSkip :
    (r : ℕ) (key : Bytes) (value : Value) (s : Skip) (level : ℕ → List Node)
    → 0 < s.height
    → IsSkip s level
    → IsSkip
        (json_skip_put r key value s)
        (placed (node_height s.height r) (new_node key value s) level)
unfolding json_skip_put
json_skip_put-IsSkip r key value s level k skip =
    let top = node_height s.height r in
    let fresh = new_node key value s in
    let fix = fix_at s.height s key 0 in
    record {
      chain = λ h l.
          placed_lem (λ h ns. Chain (link top fix fresh s.next_list) h 0 ns) top fresh level h
            (λ b.
              link-below top fix fresh s.next_list h (level h) b
                (fix_at-last_smaller s level skip key h l) (ground arith)
                (Without-new s.node_count (level h) (skip.counted h)) (skip.chain h l))
            (λ b. link-above top fix fresh s.next_list h (level h) b (skip.chain h l));
      ordered = λ h.
          placed_lem (λ h ns. IsOrdered (fields_of ns)) top fresh level h
            (λ b.
              subst IsOrdered (sym (fields_of-put_node fresh (level h)))
                (skip_put-IsOrdered key value (fields_of (level h)) (skip.ordered h)))
            (λ b. skip.ordered h);
      counted = λ h.
          placed_lem (λ h ns. All (λ n. n.id ≤ suc s.node_count) ns) top fresh level h
            (λ b.
              put_node-All (λ n. n.id ≤ suc s.node_count) fresh (level h) (omega arith)
                (counted_more s.node_count (level h) (skip.counted h)))
            (λ b. counted_more s.node_count (level h) (skip.counted h));
      size = λ h.
          placed_lem (λ h ns. length ns ≤ suc s.node_count) top fresh level h
            (λ b. omega (arith, length-put_node fresh (level h), skip.size h))
            (λ b. omega (arith, skip.size h));
      below = λ h n. placed-Has top fresh level h n (skip.below h n);
    }
