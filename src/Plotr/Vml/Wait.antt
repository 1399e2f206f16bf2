-- ===== src/Plotr/Vml/Wait.antt =====
-- How a chart waits for the emulation: until a tick finds it ready, or for a limited number of tries.
use dbslayer.Prelude.{
  ℕ, zero, suc, ◌≤◌, ◌<◌, ◌≡◌, refl, ap, ◌∙◌, Bool, true, false, List, [], ◌∷◌, Bytes, Option, none,
  some, length, All, arith, if◌then◌else◌,
}
use dbslayer.Json.Value.{ℤ, pos, negsuc, decremented}
use dbslayer.Plotr.Number.{Number}
use dbslayer.Plotr.Vml.{
  Element, node, Options, Kind, Document, Delay, stopped, running, Waiting, Outcome, done, then_do,
  ie_wait, stack_put, key_of, not_ready, is_used_up,
}
use dbslayer.Plotr.Vml.Render.{
  render_waiting, Event, call, tick, reset_call, orphan_tick, handle, handle_all,
}

module _ (num : Number) where
  -- a call of `render`, or a tick of the executer
  abbrev pub IsRequest : Event num → Type 0
  IsRequest (call e o) = Unit
  IsRequest tick = Unit
  IsRequest reset_call = ⊥
  IsRequest (orphan_tick i) = ⊥

  -- a request that finds the canvas `id` not ready
  abbrev pub IsUnready : Bytes → (Bytes → Bool) × Event num → Type 0
  IsUnready id (ready, event) = (ready id ≡ false) × IsRequest event

  abbrev pub with_delay : ℤ → Delay num → List (Bytes × Options num) → Waiting num → Waiting num
  with_delay m d s w = record w { max_tries = m; render_delay = d; render_stack = s }

  module _ (kind : Kind num) (doc : Document num) where
    abbrev pub pushed :
        Option Element → Options num → List (Bytes × Options num) → List (Bytes × Options num)
    pushed none o s = s
    pushed (some e) o s = stack_put num (key_of num doc e) o s

    pub render_unready :
        (ready : Bytes → Bool) (e : Option Element) (o : Options num) (m : ℤ) (d : Delay num)
        (s : List (Bytes × Options num)) (w : Waiting num)
        → w.is_ie ≡ true
        → ready w.canvas ≡ false
        → render_waiting num 2 kind doc ready e o (with_delay m d s w)
          ≡ done (not_ready num d o (with_delay m d (pushed e o s) w))
    unfolding render_waiting ie_wait
    render_unready ready none o m d s w h k = rw (h, k)
    render_unready ready (some e) o m d s w h k = rw (h, k)

    -- one more try
    waits_on :
        (ready : Bytes → Bool) (event : Event num) (o : Options num) (n : ℕ)
        (s : List (Bytes × Options num)) (w : Waiting num)
        → w.is_ie ≡ true
        → IsUnready w.canvas (ready, event)
        → (t : List (Bytes × Options num)) × (handle num kind doc ready event
              (with_delay (pos (suc n)) (running o) s w)
            ≡ done (with_delay (pos n) (running o) t w))
    unfolding handle
    waits_on ready (call e p) o n s w h (k, tt) =
        (pushed e p s, render_unready ready e p (pos (suc n)) (running o) s w h k)
    waits_on ready tick o n s w h (k, tt) =
        (_, render_unready ready (some (node w.canvas)) o (pos (suc n)) (running o) s w h k)
    waits_on ready reset_call o n s w h (k, r) = absurd r
    waits_on ready (orphan_tick i) o n s w h (k, r) = absurd r

    last_try :
        (ready : Bytes → Bool) (event : Event num) (o : Options num)
        (s : List (Bytes × Options num)) (w : Waiting num)
        → w.is_ie ≡ true
        → IsUnready w.canvas (ready, event)
        → (t : List (Bytes × Options num)) × (handle num kind doc ready event
              (with_delay (pos 0) (running o) s w)
            ≡ done (with_delay (negsuc 0) stopped t w))
    unfolding handle
    last_try ready (call e p) o s w h (k, tt) =
        (pushed e p s, render_unready ready e p (pos 0) (running o) s w h k)
    last_try ready tick o s w h (k, tt) =
        (_, render_unready ready (some (node w.canvas)) o (pos 0) (running o) s w h k)
    last_try ready reset_call o s w h (k, r) = absurd r
    last_try ready (orphan_tick i) o s w h (k, r) = absurd r

    -- a stopped executer is not started again
    stays_stopped :
        (ready : Bytes → Bool) (event : Event num) (m : ℤ) (s : List (Bytes × Options num))
        (w : Waiting num)
        → w.is_ie ≡ true
        → IsUnready w.canvas (ready, event)
        → (l : ℤ) × (t : List (Bytes × Options num)) × (handle num kind doc ready event
              (with_delay m stopped s w)
            ≡ done (with_delay l stopped t w))
    unfolding handle
    stays_stopped ready (call e p) m s w h (k, r) = (
      decremented m,
      pushed e p s,
      render_unready ready e p m stopped s w h k ∙ stop_lem (is_used_up m),
    )
      where
        stop_lem :
            (b : Bool)
            → done (with_delay (decremented m) (if b then stopped else stopped) (pushed e p s) w)
              ≡ done (with_delay (decremented m) stopped (pushed e p s) w)
        stop_lem true = refl
        stop_lem false = refl
    stays_stopped ready tick m s w h k = (m, s, refl)
    stays_stopped ready reset_call m s w h (k, r) = absurd r
    stays_stopped ready (orphan_tick i) m s w h (k, r) = absurd r

    -- the events behind the first one
    pub behind :
        (es : List ((Bytes → Bool) × Event num)) {x y : Outcome num} {w : Waiting num}
        → x ≡ done w
        → handle_all num kind doc es w ≡ y
        → then_do num x (handle_all num kind doc es) ≡ y
    behind es p q = ap (λ x. then_do num x (handle_all num kind doc es)) p ∙ q

    pub keep_waiting :
        (es : List ((Bytes → Bool) × Event num)) (o : Options num) (n : ℕ)
        (s : List (Bytes × Options num)) (w : Waiting num)
        → w.is_ie ≡ true
        → All (IsUnready w.canvas) es
        → length es ≤ n
        → (j : ℕ) × (t : List (Bytes × Options num)) × (handle_all num kind doc es
              (with_delay (pos n) (running o) s w)
            ≡ done (with_delay (pos j) (running o) t w))
    unfolding handle_all
    keep_waiting [] o n s w h u l = (n, s, refl)
    keep_waiting (e ∷ es) o zero s w h u l = absurd (omega (arith, l))
    keep_waiting (e ∷ es) o (suc n) s w h (k, u) l =
        let (t, p) = waits_on e.0 e.1 o n s w h k in
        let (j, r, q) = keep_waiting es o n t w h u (omega (arith, l)) in (j, r, behind es p q)

    keep_stopped :
        (es : List ((Bytes → Bool) × Event num)) (m : ℤ) (s : List (Bytes × Options num))
        (w : Waiting num)
        → w.is_ie ≡ true
        → All (IsUnready w.canvas) es
        → (l : ℤ) × (t : List (Bytes × Options num)) × (handle_all num kind doc es
              (with_delay m stopped s w)
            ≡ done (with_delay l stopped t w))
    unfolding handle_all
    keep_stopped [] m s w h u = (m, s, refl)
    keep_stopped (e ∷ es) m s w h (k, u) =
        let (m', t, p) = stays_stopped e.0 e.1 m s w h k in
        let (j, r, q) = keep_stopped es m' t w h u in (j, r, behind es p q)

    pub too_many_tries :
        (es : List ((Bytes → Bool) × Event num)) (o : Options num) (n : ℕ)
        (s : List (Bytes × Options num)) (w : Waiting num)
        → w.is_ie ≡ true
        → All (IsUnready w.canvas) es
        → n < length es
        → (l : ℤ) × (t : List (Bytes × Options num)) × (handle_all num kind doc es
              (with_delay (pos n) (running o) s w)
            ≡ done (with_delay l stopped t w))
    unfolding handle_all
    too_many_tries [] o n s w h u l = absurd (omega (arith, l))
    too_many_tries (e ∷ es) o zero s w h (k, u) l =
        let (t, p) = last_try e.0 e.1 o s w h k in
        let (j, r, q) = keep_stopped es (negsuc 0) t w h u in (j, r, behind es p q)
    too_many_tries (e ∷ es) o (suc n) s w h (k, u) l =
        let (t, p) = waits_on e.0 e.1 o n s w h k in
        let (j, r, q) = too_many_tries es o n t w h u (omega (arith, l)) in (j, r, behind es p q)
