-- ===== src/Json/Skip/Levels.antt =====
-- common/json_skip.c: one level of a skip list, as the list of its nodes.
use dbslayer.Prelude.{
  ℕ, zero, suc, ◌≤◌, true, false, Bool-cases, List, [], ◌∷◌, Bytes, ◌==◌, length, All,
  if◌then◌else◌, none, some, ◌≡◌, refl, sym, ap, subst, ◌∙◌, ◌⊎◌, inl, inr, arith,
}
use mathlib.Core.Bool.{true≢false}
use dbslayer.Json.Value.{Fields, no_fields, field, skip_put, skip_get, bytes_lt}
use dbslayer.Json.Order.{NoneBelow, IsOrdered, bytes_lt_trans}
use dbslayer.Json.Skip.{Node, NextList, step_from, walk, data_if}

-- the fields that the nodes of a level hold
abbrev pub fields_of : List Node → Fields
fields_of [] = no_fields
fields_of (n ∷ ns) = field n.key n.value (fields_of ns)

-- the nodes that follow number `a` on level `h`, none of which is number `a`
unfoldable pub Chain : NextList → ℕ → ℕ → List Node → Type 0
Chain next h a [] = next h a ≡ none
Chain next h a (n ∷ ns) =
    (next h a ≡ some n) × All (λ m. (m.id == a) ≡ false) (n ∷ ns) × Chain next h n.id ns

-- the node before the first whose key is not smaller
unfoldable pub last_smaller : Bytes → ℕ → List Node → ℕ
last_smaller key a [] = a
last_smaller key a (n ∷ ns) =
    let rest = last_smaller key n.id ns in if bytes_lt n.key key then rest else a

-- and a node put behind it
unfoldable pub put_node : Node → List Node → List Node
put_node fresh [] = fresh ∷ []
put_node fresh (n ∷ ns) =
    let rest = put_node fresh ns in if bytes_lt n.key fresh.key then n ∷ rest else fresh ∷ n ∷ ns

-- the `while` ends at this node
pub walk-last_smaller :
    (fuel : ℕ) (next : NextList) (h : ℕ) (key : Bytes) (a : ℕ) (ns : List Node)
    → Chain next h a ns
    → length ns ≤ fuel
    → walk fuel next h key a ≡ last_smaller key a ns
unfolding walk last_smaller Chain
walk-last_smaller zero next h key a [] c l = refl
walk-last_smaller zero next h key a (n ∷ ns) c l = absurd (omega (arith, l))
walk-last_smaller (suc fuel) next h key a [] c l =
    ap (λ p. step_from key a p (walk fuel next h key)) c
walk-last_smaller (suc fuel) next h key a (n ∷ ns) (e, d, c) l =
    ap (λ p. step_from key a p (walk fuel next h key)) e
    ∙ ap (λ m. if bytes_lt n.key key then m else a)
        (walk-last_smaller fuel next h key n.id ns c (omega (arith, l)))

-- `json_skip_put` on the fields
pub fields_of-put_node :
    (fresh : Node) (ns : List Node)
    → fields_of (put_node fresh ns) ≡ skip_put fresh.key fresh.value (fields_of ns)
unfolding put_node skip_put
fields_of-put_node fresh [] = refl
fields_of-put_node fresh (n ∷ ns) = elim (Bool-cases (bytes_lt n.key fresh.key)) [
  | inl e ↦ rw e (ap (field n.key n.value) (fields_of-put_node fresh ns))
  | inr e ↦ rw e refl
]

-- the node that is found, and `json_skip_get` on the fields
pub data_if-last_smaller :
    (next : NextList) (h : ℕ) (key : Bytes) (a : ℕ) (ns : List Node)
    → Chain next h a ns
    → data_if key (next h (last_smaller key a ns)) ≡ skip_get key (fields_of ns)
unfolding last_smaller Chain skip_get
data_if-last_smaller next h key a [] c = ap (data_if key) c
data_if-last_smaller next h key a (n ∷ ns) (e, d, c) = elim (Bool-cases (bytes_lt n.key key)) [
  | inl l ↦ rw l (data_if-last_smaller next h key n.id ns c)
  | inr l ↦ rw l (ap (data_if key) e)
]

unfoldable pub Has : Node → List Node → Type 0
Has m [] = ⊥
Has m (n ∷ ns) = (m ≡ n) ⊎ Has m ns

-- a node with a smaller key
pub record HasSmaller (key : Bytes) (m : ℕ) (ns : List Node) : Type 0 where
  pub node : Node
  pub has : Has node ns
  pub id_eq : m ≡ node.id
  pub smaller : bytes_lt node.key key ≡ true

pub HasSmaller-imp :
    (key : Bytes) (m : ℕ) (ns others : List Node)
    → ((n : Node) → Has n ns → Has n others)
    → HasSmaller key m ns
    → HasSmaller key m others
HasSmaller-imp key m ns others f h = record {
  node = h.node;
  has = f h.node h.has;
  id_eq = h.id_eq;
  smaller = h.smaller;
}

HasSmaller-cons :
    (key : Bytes) (m : ℕ) (n : Node) (ns : List Node)
    → HasSmaller key m ns
    → HasSmaller key m (n ∷ ns)
unfolding Has
HasSmaller-cons key m n ns = HasSmaller-imp key m ns (n ∷ ns) (λ _ h. inr h)

pub last_smaller-HasSmaller :
    (key : Bytes) (a : ℕ) (ns : List Node)
    → (last_smaller key a ns ≡ a) ⊎ HasSmaller key (last_smaller key a ns) ns
unfolding last_smaller Has
last_smaller-HasSmaller key a [] = inl refl
last_smaller-HasSmaller key a (n ∷ ns) = elim (Bool-cases (bytes_lt n.key key)) [
  | inl l ↦ rw l (elim (last_smaller-HasSmaller key n.id ns) [
    | inl e ↦ inr (record { node = n; has = inl refl; id_eq = e; smaller = l })
    | inr h ↦ inr (HasSmaller-cons key _ n ns h)
  ])
  | inr l ↦ rw l (inl refl)
]

-- what stands before a smaller key is smaller
smaller_lem :
    (key k : Bytes) (m : Node) (ns : List Node)
    → NoneBelow k (fields_of ns)
    → Has m ns
    → bytes_lt m.key key ≡ true
    → bytes_lt k key ≡ true
unfolding Has NoneBelow
smaller_lem key k m [] b h l = elim h [ ]
smaller_lem key k m (n ∷ ns) (b, bs) (inr h) l = smaller_lem key k m ns bs h l
smaller_lem key k m (n ∷ ns) (b, bs) (inl e) l = elim (Bool-cases (bytes_lt k key)) [
  | inl t ↦ t
  | inr f ↦
      absurd (true≢false (sym l ∙ ap (λ x. bytes_lt x.key key) e ∙ bytes_lt_trans n.key k key b f))
]

-- the rest of a level behind one of its nodes
pub record Rest (next : NextList) (h : ℕ) (key : Bytes) (a m : ℕ) (ns : List Node) : Type 0 where
  pub tail : List Node
  pub chain : Chain next h m tail
  pub size : length tail ≤ length ns
  pub ends : last_smaller key a ns ≡ last_smaller key m tail

-- a search that begins at a smaller node ends where one from the start does
pub HasSmaller-Rest :
    (next : NextList) (h : ℕ) (key : Bytes) (a m : ℕ) (ns : List Node)
    → Chain next h a ns
    → IsOrdered (fields_of ns)
    → HasSmaller key m ns
    → Rest next h key a m ns
unfolding Chain IsOrdered Has last_smaller
HasSmaller-Rest next h key a m [] c o s = absurd s.has
HasSmaller-Rest next h key a m (n ∷ ns) (e, d, c) (b, o) s = elim s.has [
  | inl q ↦
      let here : n.id ≡ m = ap (λ (x : Node). x.id) (sym q) ∙ sym s.id_eq in
      let l : bytes_lt n.key key ≡ true =
        ap (λ (x : Node). bytes_lt x.key key) (sym q) ∙ s.smaller in
      record {
        tail = ns;
        chain = subst (λ i. Chain next h i ns) here c;
        size = omega arith;
        ends = rw l (ap (λ i. last_smaller key i ns) here);
      }
  | inr q ↦
      let l = smaller_lem key n.key s.node ns b q s.smaller in
      let r =
        HasSmaller-Rest next h key n.id m ns c o
          (record { node = s.node; has = q; id_eq = s.id_eq; smaller = s.smaller }) in
      record { tail = r.tail; chain = r.chain; size = omega (arith, r.size); ends = rw l r.ends }
]
