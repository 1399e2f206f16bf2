-- ===== src/Plotr/Chart/Sets.antt =====
-- The data sets of a chart: one for each name, and never more than `sets` counts.
use dbslayer.Prelude.{
  ◌+◌, ◌≡◌, refl, sym, ap, ◌∙◌, Bool, true, false, List, [], ◌∷◌, Bytes, bytes_eq, bytes_eq_iff,
  length, arith, if◌then◌else◌, Option, none, some,
}
use dbslayer.Plotr.Number.{Number}
use dbslayer.Plotr.Chart.{Chart, Dataset, Item, put, add_dataset}

module _ (num : Number) where
  -- the data set of a name: `this.dataStores[name]`
  abbrev pub find : Bytes → List (Dataset num) → Option (List (Item num))
  find name [] = none
  find name (d ∷ ds) = if bytes_eq d.name name then some d.items else find name ds

  -- what a name stands for after the sets `ds` were added, the last one of that name first
  abbrev pub latest :
      Bytes → List (Dataset num) → Option (List (Item num)) → Option (List (Item num))
  latest name [] old = old
  latest name (d ∷ ds) old = latest name ds (if bytes_eq d.name name then some d.items else old)

  put_round :
      (name : Bytes) (d e : Dataset num) (es : List (Dataset num)) (same hit : Bool)
      → bytes_eq e.name d.name ≡ same
      → bytes_eq d.name name ≡ hit
      → find name (put num d es) ≡ (if hit then some d.items else find name es)
      → find name (if same then d ∷ es else e ∷ put num d es)
        ≡ (if hit then some d.items else find name (e ∷ es))
  put_round name d e es true true p q h = ap (λ b. if b then some d.items else find name es) q
  put_round name d e es true false p q h =
      let other = ap (λ n. bytes_eq n name) ((bytes_eq_iff e.name d.name).0 p) ∙ q in
      ap (λ b. if b then some d.items else find name es) q
      ∙ sym (ap (λ b. if b then some e.items else find name es) other)
  put_round name d e es false true p q h =
      let other = ap (bytes_eq e.name) (sym ((bytes_eq_iff d.name name).0 q)) ∙ p in
      ap (λ b. if b then some e.items else find name (put num d es)) other ∙ h
  put_round name d e es false false p q h =
      ap (λ o. if bytes_eq e.name name then some e.items else o) h

  find-put :
      (name : Bytes) (d : Dataset num) (es : List (Dataset num))
      → find name (put num d es) ≡ (if bytes_eq d.name name then some d.items else find name es)
  unfolding put
  find-put name d [] = refl
  find-put name d (e ∷ es) = put_round name d e es _ _ refl refl (find-put name d es)

  -- After `addDataset`, a name stands for the last data set of that name that was added, and else for
  -- what it stood for before; `sets` has grown by the number of sets added.
  pub find-add_dataset :
      (name : Bytes) (ds : List (Dataset num)) (c : Chart num)
      → (find name (add_dataset num ds c).data_stores ≡ latest name ds (find name c.data_stores))
        × ((add_dataset num ds c).sets ≡ length ds + c.sets)
  unfolding add_dataset
  find-add_dataset name [] c = (refl, omega arith)
  find-add_dataset name (d ∷ ds) c =
      let r =
        find-add_dataset name ds
          (record c { data_stores = put num d c.data_stores; sets = c.sets + 1 }) in
      (r.0 ∙ ap (latest name ds) (find-put name d c.data_stores), omega (arith, r.1))
