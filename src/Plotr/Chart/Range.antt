-- ===== src/Plotr/Chart/Range.antt =====
-- The range of an axis that is fitted to the data: it holds every value, and scales it into [0, 1].
use dbslayer.Prelude.{
  ◌^◌, ◌≡◌, refl, sym, ap₂, subst, Bool, true, false, ◌&&◌, List, [], ◌∷◌, Option, none, some,
  if◌then◌else◌, All, arith,
}
use dbslayer.Plotr.Number.{Number, IsOrdered, IsScalable}
use dbslayer.Plotr.Prototype.{max_from, min_from}
use dbslayer.Plotr.Chart.{axis_low, axis_high, scale_of, parse_extreme}

module _ (num : Number) (laws : IsOrdered num) where
  open num use {Num, of_ℕ, sub, mul, div, le, lt, eq, is_finite, parse_float}

  abbrev pub Finite : Num → Type 0
  Finite v = is_finite v ≡ true

  abbrev pub Le : Num → Num → Type 0
  Le v w = le v w ≡ true

  All-map {ℓ κ μ} :
      {A : Type ℓ} {P : A → Type κ} {Q : A → Type μ} (xs : List A)
      → ((x : A) → P x → Q x)
      → All P xs
      → All Q xs
  All-map [] f h = tt
  All-map (x ∷ xs) f h = (f x h.0, All-map xs f h.1)

  -- `m` is finite, and `r` and every element relate to it
  record IsExtreme (R : Num → Num → Type 0) (r m : Num) (vs : List Num) : Type 0 where
    finite_m : Finite m
    start_le : R r m
    all_le : All (λ v. R v m) vs

  -- one round of `max` or `min`, which keeps `v` or `r`
  pick_lem :
      (R : Num → Num → Type 0) (b : Bool) (r v : Num)
      → ((x : Num) → Finite x → R x x)
      → (b ≡ true → R r v)
      → (b ≡ false → R v r)
      → Finite r
      → Finite v
      → Finite (if b then v else r) × R r (if b then v else r) × R v (if b then v else r)
  pick_lem R true r v refl_R up down fr fv = (fv, up refl, refl_R v fv)
  pick_lem R false r v refl_R up down fr fv = (fr, refl_R r fr, down refl)

  abbrev HasExtreme : (Num → Num → Type 0) → Num → List Num → Option Num → Type 0
  HasExtreme R r vs o = (m : Num) × ((o ≡ some m) × IsExtreme R r m vs)

  grown :
      (R : Num → Num → Type 0) (r s v : Num) (vs : List Num) (o : Option Num)
      → ((x y z : Num) → R x y → R y z → R x z)
      → R r s
      → R v s
      → HasExtreme R s vs o
      → HasExtreme R r (v ∷ vs) o
  grown R r s v vs o trans rs vs' (m, (e, h)) = (
    m,
    (
      e,
      record {
        finite_m = h.finite_m;
        start_le = trans r s m rs h.start_le;
        all_le = (trans v s m vs' h.start_le, h.all_le);
      },
    ),
  )

  abbrev Ge : Num → Num → Type 0
  Ge v w = Le w v

  max_lem :
      (vs : List Num) (r : Num)
      → Finite r
      → All Finite vs
      → HasExtreme Le r vs (max_from num (some r) vs)
  unfolding max_from
  max_lem [] r fr fvs =
      (r, (refl, record { finite_m = fr; start_le = laws.le_refl r fr; all_le = tt }))
  max_lem (v ∷ vs) r fr (fv, fvs) =
      let p = pick_lem Le (le r v) r v laws.le_refl (λ e. e) (laws.le_of_not_le r v fr fv) fr fv in
      grown Le r _ v vs _ laws.le_trans p.1 p.2 (max_lem vs _ p.0 fvs)

  min_lem :
      (vs : List Num) (r : Num)
      → Finite r
      → All Finite vs
      → HasExtreme Ge r vs (min_from num (some r) vs)
  unfolding min_from
  min_lem [] r fr fvs =
      (r, (refl, record { finite_m = fr; start_le = laws.le_refl r fr; all_le = tt }))
  min_lem (v ∷ vs) r fr (fv, fvs) =
      let p =
        pick_lem Ge (lt v r) r v laws.le_refl (laws.le_of_lt v r) (laws.le_of_not_lt v r fv fr) fr
          fv in
      grown Ge r _ v vs _ (λ x y z h k. laws.le_trans z y x k h) p.1 p.2 (min_lem vs _ p.0 fvs)

  parsed :
      (R : Num → Num → Type 0) (r : Num) (vs : List Num) (o : Option Num)
      → ((x y z : Num) → R x y → R y z → R x z)
      → ((x : Num) → Finite x → R x (parse_float x))
      → HasExtreme R r vs o
      → IsExtreme R r (parse_extreme num o) vs
  parsed R r vs o trans step (m, (e, h)) =
      let last = step m h.finite_m in
      subst (λ x. IsExtreme R r (parse_extreme num x) vs) (sym e)
        (record {
          finite_m = laws.parse_float_finite m h.finite_m;
          start_le = trans r m (parse_float m) h.start_le last;
          all_le = All-map vs (λ v k. trans v m (parse_float m) k last) h.all_le;
        })

  -- a value in the range from `low` to `high`
  pub record InRange (low high v : Num) : Type 0 where
    pub finite_v : Finite v
    pub finite_low : Finite low
    pub finite_high : Finite high
    pub low_le : Le low v
    pub le_high : Le v high

  zip_range :
      (low high : Num) (vs : List Num)
      → Finite low
      → Finite high
      → All Finite vs
      → All (λ v. Le low v) vs
      → All (λ v. Le v high) vs
      → All (InRange low high) vs
  zip_range low high [] fl fh f l h = tt
  zip_range low high (v ∷ vs) fl fh (f, fs) (l, ls) (h, hs) = (
    record { finite_v = f; finite_low = fl; finite_high = fh; low_le = l; le_high = h },
    zip_range low high vs fl fh fs ls hs,
  )

  -- The axis that is fitted to the finite values `vs` holds them all, unless it starts at zero and
  -- one of them is negative.
  pub fitted-InRange :
      (is_zero : Bool) (vs : List Num)
      → All Finite vs
      → (is_zero ≡ true → All (Le (of_ℕ 0)) vs)
      → All (InRange (axis_low num none is_zero vs) (axis_high num none vs)) vs
  unfolding max_from min_from
  fitted-InRange is_zero [] f nonneg = tt
  fitted-InRange true (v ∷ vs) (fv, fvs) nonneg =
      let top = parsed Le v vs _ laws.le_trans laws.le_parse_float (max_lem vs v fv fvs) in
      zip_range _ _ (v ∷ vs) (laws.literals_finite 0 (omega arith)) top.finite_m (fv, fvs)
        (nonneg refl) (top.start_le, top.all_le)
  fitted-InRange false (v ∷ vs) (fv, fvs) nonneg =
      let top = parsed Le v vs _ laws.le_trans laws.le_parse_float (max_lem vs v fv fvs) in
      let bottom =
        parsed Ge v vs _ (λ x y z h k. laws.le_trans z y x k h) laws.parse_float_le
          (min_lem vs v fv fvs) in
      zip_range _ _ (v ∷ vs) bottom.finite_m top.finite_m (fv, fvs) (bottom.start_le, bottom.all_le)
        (top.start_le, top.all_le)

  -- what the range does to a value: between 0 and the width of the range
  record IsOffset (offset range : Num) : Type 0 where
    offset_nonneg : Le (of_ℕ 0) offset
    offset_le : Le offset range
    range_nonneg : Le (of_ℕ 0) range

  offset_lem : (low high v : Num) → InRange low high v → IsOffset (sub v low) (sub high low)
  offset_lem low high v h = record {
    offset_nonneg = laws.sub_nonneg low v h.finite_low h.finite_v h.low_le;
    offset_le = laws.sub_mono v high low h.finite_v h.finite_high h.finite_low h.le_high;
    range_nonneg =
        laws.sub_nonneg low high h.finite_low h.finite_high
          (laws.le_trans low v high h.low_le h.le_high);
  }

  abbrev pub ScaledInside : Num → Num → Type 0
  ScaledInside offset scale =
      (le (of_ℕ 0) (mul offset scale) && le (mul offset scale) (of_ℕ 1)) ≡ true

  flat_lem :
      (offset range : Num)
      → IsOffset offset range
      → eq range (of_ℕ 0) ≡ true
      → ScaledInside offset (of_ℕ 1)
  flat_lem offset range h e =
      let below =
        laws.le_trans offset range (of_ℕ 1) h.offset_le (
          laws.le_trans range (of_ℕ 0) (of_ℕ 1) (laws.le_of_eq range (of_ℕ 0) e)
            laws.zero_le_one) in
      subst (λ x. (le (of_ℕ 0) x && le x (of_ℕ 1)) ≡ true) (sym (laws.mul_one offset))
        (ap₂ (λ a b. a && b) h.offset_nonneg below)

  wide_lem :
      (offset range : Num)
      → IsOffset offset range
      → eq range (of_ℕ 0) ≡ false
      → IsScalable num range
      → ScaledInside offset (div (of_ℕ 1) range)
  wide_lem offset range h e (small, f_recip) =
      let f_range =
        laws.finite_between range _ h.range_nonneg small
          (laws.literals_finite (2 ^ 1000) (omega arith)) in
      let f_offset = laws.finite_between offset range h.offset_nonneg h.offset_le f_range in
      let recip = laws.recip_nonneg range h.range_nonneg e in
      ap₂ (λ a b. a && b) (laws.mul_nonneg offset _ f_offset f_recip h.offset_nonneg recip)
        (laws.le_trans _ _ _
          (laws.mul_mono offset range _ f_offset f_range f_recip recip h.offset_le)
          (laws.recip_le_one range h.range_nonneg e (small, f_recip)))

  scale_lem :
      (offset range : Num) (z : Bool)
      → IsOffset offset range
      → eq range (of_ℕ 0) ≡ z
      → (z ≡ false → IsScalable num range)
      → ScaledInside offset (if z then of_ℕ 1 else div (of_ℕ 1) range)
  scale_lem offset range true h e s = flat_lem offset range h e
  scale_lem offset range false h e s = wide_lem offset range h e (s refl)

  -- `xscale` maps a value of the range into [0, 1].
  pub scale_of-InRange :
      (low high v : Num)
      → InRange low high v
      → (eq (sub high low) (of_ℕ 0) ≡ false → IsScalable num (sub high low))
      → ScaledInside (sub v low) (scale_of num (sub high low))
  scale_of-InRange low high v h s =
      scale_lem (sub v low) (sub high low) _ (offset_lem low high v h) refl s
