-- ===== src/Server/Stats/Run.antt =====
-- The ring against the slices of a run: each event keeps what it holds.
use dbslayer.Prelude.{
  ℕ, suc, ◌+◌, ◌^◌, ◌≤◌, ◌<◌, ◌≡◌, ◌≢◌, refl, sym, ap, subst, ◌∙◌, List, [], ◌∷◌, ◌++◌,
  append_assoc, append-nil, map, length, set, get_or, arith,
}
use dbslayer.Server.Stats.{
  Stats, stat_init, stat_update, stats_tick, next_slice, count_up, Event, request, tick, run,
}
use dbslayer.Server.Stats.Rows.{Row, Row-set, Row-turn, next_slice_lt, length-replicate}

-- what a slice counts, and when it starts
pub record Slice : Type 0 where
  pub count : ℕ
  pub time : ℕ

-- the slices that end in a run, oldest first, where `cur` is the one it starts in
abbrev pub completed : Slice → List Event → List Slice
completed cur [] = []
completed cur (request ∷ es) = completed (record { count = suc cur.count; time = cur.time }) es
completed cur (tick now ∷ es) = cur ∷ completed (record { count = 0; time = now }) es

abbrev pub current : Slice → List Event → Slice
current cur [] = cur
current cur (request ∷ es) = current (record { count = suc cur.count; time = cur.time }) es
current cur (tick now ∷ es) = current (record { count = 0; time = now }) es

abbrev pub requests : List Event → ℕ
requests [] = 0
requests (request ∷ es) = suc (requests es)
requests (tick now ∷ es) = requests es

-- no tick at the time 0, which marks a slot that is not in use
abbrev pub IsTimed : List Event → Type 0
IsTimed [] = Unit
IsTimed (request ∷ es) = IsTimed es
IsTimed (tick now ∷ es) = (now ≢ 0) × IsTimed es

abbrev pub count_of : Slice → ℕ
count_of s = s.count

abbrev pub time_of : Slice → ℕ
time_of s = s.time

pub record Holds (n : ℕ) (stats : Stats) (older : List Slice) (cur : Slice) (total : ℕ)
    : Type 0 where
  pub in_ring : stats.offset < suc n
  pub hits_row : Row n stats.offset stats.hits (map count_of older) cur.count
  pub slices_row : Row n stats.offset stats.slices (map time_of older) cur.time
  pub total_eq : stats.total_requests ≡ total

count_up_lem : (n : ℕ) → suc n < 2 ^ 31 → count_up n ≡ suc n
count_up_lem n h = omega (arith, h)

Holds-stat_update :
    (n : ℕ) (stats : Stats) (older : List Slice) (cur : Slice) (total : ℕ)
    → suc total < 2 ^ 31
    → cur.count ≤ total
    → Holds n stats older cur total
    → Holds n
        (stat_update stats)
        older
        (record { count = suc cur.count; time = cur.time })
        (suc total)
unfolding stat_update
Holds-stat_update n stats older cur total small le h =
    let o = stats.offset in
    record {
      in_ring = h.in_ring;
      hits_row =
          subst
            (λ x.
              Row n o (set stats.hits o (count_up (get_or stats.hits o 0))) (map count_of older) x)
            (ap count_up h.hits_row.current_eq ∙ count_up_lem cur.count (omega (arith, small, le)))
            (Row-set n o stats.hits _ cur.count _ h.in_ring h.hits_row);
      slices_row = h.slices_row;
      total_eq = ap count_up h.total_eq ∙ count_up_lem total small;
    }

map-snoc :
    (f : Slice → ℕ) (ss : List Slice) (s : Slice) → map f ss ++ f s ∷ [] ≡ map f (ss ++ s ∷ [])
map-snoc f [] s = refl
map-snoc f (x ∷ ss) s = ap (λ ys. f x ∷ ys) (map-snoc f ss s)

Holds-stats_tick :
    (n : ℕ) (stats : Stats) (older : List Slice) (cur : Slice) (total now : ℕ)
    → Holds n stats older cur total
    → Holds n (stats_tick now stats) (older ++ cur ∷ []) (record { count = 0; time = now }) total
unfolding stats_tick
Holds-stats_tick n stats older cur total now h =
    let m = length stats.hits in
    let o = next_slice stats.offset m in
    record {
      in_ring =
          subst (λ l. next_slice stats.offset l < suc n) (sym h.hits_row.length_eq)
            (next_slice_lt stats.offset (suc n) h.in_ring);
      hits_row =
          subst (λ ys. Row n o (set stats.hits o 0) ys 0) (map-snoc count_of older cur)
            (Row-turn n stats.offset m stats.hits _ cur.count 0 h.in_ring h.hits_row.length_eq
              h.hits_row);
      slices_row =
          subst (λ ys. Row n o (set stats.slices o now) ys now) (map-snoc time_of older cur)
            (Row-turn n stats.offset m stats.slices _ cur.time now h.in_ring h.hits_row.length_eq
              h.slices_row);
      total_eq = h.total_eq;
    }

pub Holds-run :
    (n : ℕ) (es : List Event) (stats : Stats) (older : List Slice) (cur : Slice) (total : ℕ)
    → total + requests es < 2 ^ 31
    → cur.count ≤ total
    → Holds n stats older cur total
    → Holds n (run es stats) (older ++ completed cur es) (current cur es) (total + requests es)
Holds-run n [] stats older cur total small le h =
    subst (λ ss. Holds n stats ss cur (total + 0)) (sym (append-nil older))
      (subst (λ t. Holds n stats older cur t) (omega arith) h)
Holds-run n (request ∷ es) stats older cur total small le h =
    subst
      (λ t.
        Holds n (run (request ∷ es) stats) (older ++ completed cur (request ∷ es))
          (current cur (request ∷ es)) t)
      (omega arith)
      (Holds-run n es (stat_update stats) older _ (suc total) (omega (arith, small))
        (omega (arith, le)) (Holds-stat_update n stats older cur total (omega (arith, small)) le h))
Holds-run n (tick now ∷ es) stats older cur total small le h =
    subst
      (λ ss.
        Holds n (run (tick now ∷ es) stats) ss (current cur (tick now ∷ es)) (total + requests es))
      (append_assoc older (cur ∷ []) _)
      (Holds-run n es (stats_tick now stats) (older ++ cur ∷ []) _ total small (omega arith)
        (Holds-stats_tick n stats older cur total now h))

pub stat_init-Holds :
    (n start : ℕ) → Holds n (stat_init n start) [] (record { count = 0; time = start }) 0
unfolding stat_init
stat_init-Holds n start = record {
  in_ring = omega arith;
  hits_row = record { length_eq = ap suc (length-replicate n); past_eq = refl; current_eq = refl };
  slices_row = record {
    length_eq = ap suc (length-replicate n);
    past_eq = refl;
    current_eq = refl;
  };
  total_eq = refl;
}
