-- ===== src/Server/Stats/Latest.antt =====
-- What `slayer_server_stats_tojson` reports after the ticks and requests of a run.
use dbslayer.Prelude.{
  take-drop-suc, take_all, length-drop, ℕ, zero, suc, ◌+◌, ◌-◌, ◌^◌, ◌≤◌, ◌<◌, ◌≡◌, ◌≢◌, refl, sym,
  ap, ap₂, ◌∙◌, List, [], ◌∷◌, ◌++◌, append_assoc, append-nil, map, length, replicate, take, drop,
  arith, length-map, All,
}
use dbslayer.Server.Stats.{
  Stats, Shown, stat_init, show_slice, shown_loop, stats_tojson, Event, request, tick, run,
}
use dbslayer.Server.Stats.Ring.{past}
use dbslayer.Server.Stats.Ring.{past}
use dbslayer.Server.Stats.Rows.{Row}
use dbslayer.Server.Stats.Run.{
  Slice, Holds, Holds-run, stat_init-Holds, completed, requests, IsTimed, count_of, time_of,
}

-- the two loops as one fold
abbrev shown_all : List ℕ → List ℕ → Shown → Shown
shown_all [] ts shown = shown
shown_all (h ∷ hs) [] shown = shown
shown_all (h ∷ hs) (t ∷ ts) shown = shown_all hs ts (show_slice h t shown)

shown_all-append :
    (hs ts hs' ts' : List ℕ) (shown : Shown)
    → length hs ≡ length ts
    → shown_all (hs ++ hs') (ts ++ ts') shown ≡ shown_all hs' ts' (shown_all hs ts shown)
shown_all-append [] [] hs' ts' shown e = refl
shown_all-append [] (t ∷ ts) hs' ts' shown e = absurd (omega (arith, e))
shown_all-append (h ∷ hs) [] hs' ts' shown e = absurd (omega (arith, e))
shown_all-append (h ∷ hs) (t ∷ ts) hs' ts' shown e =
    shown_all-append hs ts hs' ts' (show_slice h t shown) (omega (arith, e))

loop_lem :
    (n i : ℕ) (stats : Stats) (shown : Shown)
    → i + n ≤ length stats.hits
    → length stats.slices ≡ length stats.hits
    → shown_loop n i stats shown
      ≡ shown_all (take n (drop i stats.hits)) (take n (drop i stats.slices)) shown
unfolding shown_loop
loop_lem zero i stats shown h e = refl
loop_lem (suc n) i stats shown h e =
    loop_lem n (suc i) stats _ (omega (arith, h)) e
    ∙ ap₂ (λ hs ts. shown_all hs ts shown) (sym (take-drop-suc n i stats.hits 0 (omega (arith, h))))
        (sym (take-drop-suc n i stats.slices 0 (omega (arith, h, e))))

take_rest : (o n : ℕ) (xs : List ℕ) → length xs ≡ n → take (n - o) (drop o xs) ≡ drop o xs
take_rest o n xs e = take_all (drop o xs) (n - o) (omega (arith, length-drop o xs, e))

both_loops :
    (stats : Stats)
    → stats.offset < length stats.hits
    → length stats.slices ≡ length stats.hits
    → shown_loop stats.offset 0 stats
        (shown_loop (length stats.hits - suc stats.offset) (suc stats.offset) stats ([], []))
      ≡ shown_all (past stats.offset stats.hits) (past stats.offset stats.slices) ([], [])
both_loops stats h e =
    let o = suc stats.offset in
    loop_lem stats.offset 0 stats _ (omega (arith, h)) e
    ∙ ap (λ shown. shown_all (take stats.offset stats.hits) (take stats.offset stats.slices) shown)
        (loop_lem _ o stats ([], []) (omega (arith, h)) e
          ∙ ap₂ (λ hs ts. shown_all hs ts ([], [])) (take_rest o _ stats.hits refl)
              (take_rest o _ stats.slices e))
    ∙ sym (
        shown_all-append (drop o stats.hits) (drop o stats.slices) _ _ ([], [])
          (length-drop o stats.hits ∙ ap (λ n. n - o) (sym e) ∙ sym (length-drop o stats.slices)))

drop-map : (f : Slice → ℕ) (k : ℕ) (ss : List Slice) → drop k (map f ss) ≡ map f (drop k ss)
drop-map f zero ss = refl
drop-map f (suc k) [] = refl
drop-map f (suc k) (s ∷ ss) = drop-map f k ss

padded_eq :
    (m m' k k' : ℕ) (xs : List ℕ)
    → m ≡ m'
    → k ≡ k'
    → replicate m 0 ++ drop k xs ≡ replicate m' 0 ++ drop k' xs
padded_eq m m' k k' xs p q = ap₂ (λ a b. replicate a 0 ++ drop b xs) p q

-- what is left of the unused slots and the others when `k` of them are dropped
drop-padded :
    (k n : ℕ) (xs : List ℕ) → drop k (replicate n 0 ++ xs) ≡ replicate (n - k) 0 ++ drop (k - n) xs
drop-padded zero n xs = padded_eq n (n - 0) 0 (0 - n) xs (omega arith) (omega arith)
drop-padded (suc k) zero xs =
    padded_eq 0 (0 - suc k) (suc k) (suc k - 0) xs (omega arith) (omega arith)
drop-padded (suc k) (suc n) xs =
    drop-padded k n xs
    ∙ padded_eq (n - k) (suc n - suc k) (k - n) (suc k - suc n) xs (omega arith) (omega arith)

-- slots that are not in use are not shown
shown_all-zeros :
    (n : ℕ) (hs ts : List ℕ) (shown : Shown)
    → shown_all (replicate n 0 ++ hs) (replicate n 0 ++ ts) shown ≡ shown_all hs ts shown
unfolding show_slice
shown_all-zeros zero hs ts shown = refl
shown_all-zeros (suc n) hs ts shown = shown_all-zeros n hs ts shown

show_slice_lem :
    (h t : ℕ) (hs ts : List ℕ) → t ≢ 0 → show_slice h t (hs, ts) ≡ (hs ++ h ∷ [], ts ++ t ∷ [])
unfolding show_slice
show_slice_lem h t hs ts p = ground (arith, p)

shown_all_lem :
    (ss : List Slice) (hs ts : List ℕ)
    → All (λ s. s.time ≢ 0) ss
    → shown_all (map count_of ss) (map time_of ss) (hs, ts)
      ≡ (hs ++ map count_of ss, ts ++ map time_of ss)
shown_all_lem [] hs ts a = ap₂ (λ x y. (x, y)) (sym (append-nil hs)) (sym (append-nil ts))
shown_all_lem (s ∷ ss) hs ts (p, a) =
    ap (shown_all (map count_of ss) (map time_of ss)) (show_slice_lem s.count s.time hs ts p)
    ∙ shown_all_lem ss (hs ++ s.count ∷ []) (ts ++ s.time ∷ []) a
    ∙ ap₂ (λ x y. (x, y)) (append_assoc hs (s.count ∷ []) (map count_of ss))
        (append_assoc ts (s.time ∷ []) (map time_of ss))

completed-timed :
    (es : List Event) (cur : Slice)
    → cur.time ≢ 0
    → IsTimed es
    → All (λ s. s.time ≢ 0) (completed cur es)
completed-timed [] cur p h = tt
completed-timed (request ∷ es) cur p h = completed-timed es _ p h
completed-timed (tick now ∷ es) cur p (q, h) = (p, completed-timed es _ q h)

All-drop : (k : ℕ) (ss : List Slice) → All (λ s. s.time ≢ 0) ss → All (λ s. s.time ≢ 0) (drop k ss)
All-drop zero ss h = h
All-drop (suc k) [] h = tt
All-drop (suc k) (s ∷ ss) h = All-drop k ss h.1

-- the last `n` of a list
abbrev pub latest : ℕ → List Slice → List Slice
latest n ss = drop (length ss - n) ss

row_lem :
    (f : Slice → ℕ) (n o : ℕ) (xs : List ℕ) (older : List Slice) (c : ℕ)
    → Row n o xs (map f older) c
    → past o xs ≡ replicate (n - length older) 0 ++ map f (latest n older)
row_lem f n o xs older c r =
    r.past_eq
    ∙ ap (λ k. drop k (replicate n 0 ++ map f older)) (length-map older f)
    ∙ drop-padded (length older) n (map f older)
    ∙ ap (λ ys. replicate (n - length older) 0 ++ ys) (drop-map f (length older - n) older)

past_shown :
    (n : ℕ) (stats : Stats) (older : List Slice) (cur : Slice) (total : ℕ)
    → Holds n stats older cur total
    → All (λ s. s.time ≢ 0) older
    → shown_all (past stats.offset stats.hits) (past stats.offset stats.slices) ([], [])
      ≡ (map count_of (latest n older), map time_of (latest n older))
past_shown n stats older cur total h a =
    ap₂ (λ hs ts. shown_all hs ts ([], [])) (row_lem count_of n _ stats.hits older _ h.hits_row)
      (row_lem time_of n _ stats.slices older _ h.slices_row)
    ∙ shown_all-zeros (n - length older) _ _ ([], [])
    ∙ shown_all_lem (latest n older) [] [] (All-drop _ older a)

abbrev pub first_slice : ℕ → Slice
first_slice start = record { count = 0; time = start }

-- After a run of fewer than 2^31 requests, with no clock at 0, the report of a ring that was opened for
-- `n` slices has the number of the requests, and the counts and start times of the latest `n` slices
-- that have ended, or of all of them when there are fewer, oldest first; the slice that is still
-- counting is not in it.
pub stats_tojson-run :
    (n start now : ℕ) (es : List Event)
    → start ≢ 0
    → IsTimed es
    → requests es < 2 ^ 31
    → ((stats_tojson now (run es (stat_init n start))).total_requests ≡ requests es)
      × ((stats_tojson now (run es (stat_init n start))).hits
          ≡ map count_of (latest n (completed (first_slice start) es)))
      × ((stats_tojson now (run es (stat_init n start))).slices
          ≡ map time_of (latest n (completed (first_slice start) es)))
unfolding stats_tojson
stats_tojson-run n start now es p timed small =
    let stats = run es (stat_init n start) in
    let held =
      Holds-run n es (stat_init n start) [] (first_slice start) 0 (omega (arith, small))
        (omega arith) (stat_init-Holds n start) in
    let shown =
      both_loops stats (omega (arith, held.in_ring, held.hits_row.length_eq))
        (held.slices_row.length_eq ∙ sym held.hits_row.length_eq)
      ∙ past_shown n stats _ _ _ held (completed-timed es (first_slice start) p timed) in
    (held.total_eq ∙ omega arith, ap (λ s. s.0) shown, ap (λ s. s.1) shown)
