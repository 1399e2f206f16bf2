-- ===== src/Json/Skip/Search.antt =====
-- common/json_skip.c: the search through the levels of a well-formed skip list.
use dbslayer.Prelude.{
  ℕ, zero, suc, ◌-◌, ◌≤◌, ◌<◌, false, Bool-cases, List, Bytes, ◌==◌, length, All, ◌≡◌, refl, sym,
  ap, subst, ◌∙◌, ◌⊎◌, inl, inr, arith,
}
use dbslayer.Json.Value.{skip_get}
use dbslayer.Json.Order.{IsOrdered}
use dbslayer.Json.Skip.{Node, Skip, walk, descend, fix_at, data_if, json_skip_find, json_skip_get}
use dbslayer.Json.Skip.Levels.{
  fields_of, Chain, last_smaller, walk-last_smaller, data_if-last_smaller, Has, HasSmaller,
  HasSmaller-imp, last_smaller-HasSmaller, HasSmaller-Rest,
}

-- The levels of a skip list: `level h` follows the head on level `h`, in the order of the keys, and its nodes
-- stand on the level below too.
pub record IsSkip (s : Skip) (level : ℕ → List Node) : Type 0 where
  pub chain : (h : ℕ) → h < s.height → Chain s.next_list h 0 (level h)
  pub ordered : (h : ℕ) → IsOrdered (fields_of (level h))
  pub counted : (h : ℕ) → All (λ n. n.id ≤ s.node_count) (level h)
  pub size : (h : ℕ) → length (level h) ≤ s.node_count
  pub below : (h : ℕ) (n : Node) → Has n (level (suc h)) → Has n (level h)

module _ (s : Skip) (level : ℕ → List Node) (skip : IsSkip s level) (key : Bytes) where
  -- the head, or a node with a smaller key
  abbrev Begins : ℕ → ℕ → Type 0
  Begins h m = (m ≡ 0) ⊎ HasSmaller key m (level h)

  walk-Begins :
      (h m : ℕ)
      → h < s.height
      → Begins h m
      → walk s.node_count s.next_list h key m ≡ last_smaller key 0 (level h)
  walk-Begins h m l (inl e) =
      ap (walk s.node_count s.next_list h key) e
      ∙ walk-last_smaller s.node_count s.next_list h key 0 (level h) (skip.chain h l) (skip.size h)
  walk-Begins h m l (inr b) =
      let r = HasSmaller-Rest s.next_list h key 0 m (level h) (skip.chain h l) (skip.ordered h) b in
      walk-last_smaller s.node_count s.next_list h key m r.tail r.chain
        (omega (arith, r.size, skip.size h))
      ∙ sym r.ends

  -- the node that a level leads to begins the level below
  Begins-below : (h : ℕ) → Begins h (last_smaller key 0 (level (suc h)))
  Begins-below h = elim (last_smaller-HasSmaller key 0 (level (suc h))) [
    | inl e ↦ inl e
    | inr b ↦ inr (HasSmaller-imp key _ (level (suc h)) (level h) (skip.below h) b)
  ]

  fix_at-Begins :
      (h m l : ℕ)
      → h < s.height
      → Begins h m
      → l ≤ h
      → fix_at (suc h) s key m l ≡ last_smaller key 0 (level l)
  unfolding fix_at
  fix_at-Begins zero m l k b i =
      let here : l ≡ 0 = omega (arith, i) in
      subst (λ l. fix_at 1 s key m l ≡ last_smaller key 0 (level l)) (sym here)
        (walk-Begins 0 m k b)
  fix_at-Begins (suc h) m l k b i = elim (Bool-cases (l == suc h)) [
    | inl e ↦
        let here : l ≡ suc h = ground (arith, e) in
        rw e (walk-Begins (suc h) m k b ∙ ap (λ l. last_smaller key 0 (level l)) (sym here))
    | inr e ↦
        let m' = walk s.node_count s.next_list (suc h) key m in
        rw e (
          fix_at-Begins h m' l (omega (arith, k))
            (subst (Begins h) (sym (walk-Begins (suc h) m k b)) (Begins-below h))
            (ground (arith, e, i)))
  ]

  descend-fix_at : (h m : ℕ) → descend (suc h) s key m ≡ fix_at (suc h) s key m 0
  unfolding descend fix_at
  descend-fix_at zero m = refl
  descend-fix_at (suc h) m =
      let other : (0 == suc h) ≡ false = ground arith in
      rw other (descend-fix_at h (walk s.node_count s.next_list (suc h) key m))

  -- `fix` holds on each level the last node with a smaller key
  pub fix_at-last_smaller :
      (l : ℕ) → l < s.height → fix_at s.height s key 0 l ≡ last_smaller key 0 (level l)
  fix_at-last_smaller l k =
      let top : s.height ≡ suc (s.height - 1) = omega (arith, k) in
      ap (λ h. fix_at h s key 0 l) top
      ∙ fix_at-Begins (s.height - 1) 0 l (omega (arith, k)) (inl refl) (omega (arith, k))

  -- the search through all levels finds what a search through the lowest one finds
  pub json_skip_get-skip_get :
      0 < s.height → json_skip_get s key ≡ skip_get key (fields_of (level 0))
  unfolding json_skip_get json_skip_find
  json_skip_get-skip_get k =
      let top : s.height ≡ suc (s.height - 1) = omega (arith, k) in
      ap (λ m. data_if key (s.next_list 0 m))
        (ap (λ h. descend h s key 0) top
          ∙ descend-fix_at (s.height - 1) 0
          ∙ fix_at-Begins (s.height - 1) 0 0 (omega (arith, k)) (inl refl) (omega arith))
      ∙ data_if-last_smaller s.next_list 0 key 0 (level 0) (skip.chain 0 k)
