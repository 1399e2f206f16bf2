-- ===== src/Plotr/Vml/Orphans.antt =====
-- The only executer that runs is that of `renderDelay`.
use dbslayer.Prelude.{
  ℕ, zero, suc, ◌≡◌, refl, subst, sym, ◌∙◌, Bool, true, false, List, [], ◌∷◌, Bytes, Option, none,
  some, if◌then◌else◌, arith,
}
use dbslayer.Plotr.Number.{Number}
use dbslayer.Plotr.Chart.{Chart, reset}
use dbslayer.Plotr.Canvas.{Command, render_chart}
use dbslayer.Plotr.Vml.{
  Element, by_id, node, id_of, Options, Kind, Document, Delay, no_delay, stopped, running, Waiting,
  Outcome, done, thrown, out_of_fuel, then_do, init_waiting, ie_wait, with_canvas, left_running,
  after_ready, push_request, not_ready, constructed, uninitialised,
}
use dbslayer.Plotr.Vml.Render.{
  show, with_drawing, next_request, first_of, render_waiting, unless_waiting, evaluated, moved,
  Event, call, tick, reset_call, orphan_tick, handle, handle_all, stop_delay, reset_waiting,
  on_orphan, on_tick,
}

module _ (num : Number) where
  abbrev pub IsIdle : Delay num → Type 0
  IsIdle no_delay = Unit
  IsIdle stopped = Unit
  IsIdle (running o) = ⊥

  -- No executer has been lost, and none runs where the browser draws by itself.
  abbrev pub IsTracked : Waiting num → Type 0
  IsTracked w = (w.orphans ≡ []) × (w.is_ie ≡ false → IsIdle w.render_delay)

  abbrev IsSettled : Waiting num → Type 0
  IsSettled w = (w.orphans ≡ []) × IsIdle w.render_delay

  -- a state that may be left satisfies `P`
  abbrev Leaves : (Waiting num → Type 0) → Outcome num → Type 0
  Leaves P (done w) = P w
  Leaves P thrown = Unit
  Leaves P out_of_fuel = Unit

  Leaves-then_do :
      (P Q : Waiting num → Type 0) (x : Outcome num) (f : Waiting num → Outcome num)
      → Leaves P x
      → ((v : Waiting num) → P v → Leaves Q (f v))
      → Leaves Q (then_do num x f)
  Leaves-then_do P Q (done w) f h k = k w h
  Leaves-then_do P Q thrown f h k = tt
  Leaves-then_do P Q out_of_fuel f h k = tt

  left_running-idle :
      (d : Delay num) (os : List (Options num)) → IsIdle d → left_running num d os ≡ os
  left_running-idle no_delay os h = refl
  left_running-idle stopped os h = refl
  left_running-idle (running o) os h = absurd h

  with_canvas-IsSettled :
      (ie : Bool) (id : Bytes) (w : Waiting num) (c : Option (Chart num))
      → IsSettled w
      → Leaves IsSettled (with_canvas num ie id w c)
  with_canvas-IsSettled ie id w none h = tt
  with_canvas-IsSettled false id w (some c) h = h
  with_canvas-IsSettled true id w (some c) (h, k) =
      (left_running-idle w.render_delay w.orphans k ∙ h, tt)

  module _ (kind : Kind num) (doc : Document num) where
    moved-IsSettled :
        (e : Option Element) (w : Waiting num) → IsSettled w → Leaves IsSettled (moved num doc e w)
    unfolding init_waiting
    moved-IsSettled none w h = h
    moved-IsSettled (some e) w h = with_canvas-IsSettled _ (id_of e) w _ h

    show-IsSettled :
        (e : Option Element) (o : Options num) (w : Waiting num)
        → IsSettled w
        → Leaves IsSettled (show num kind doc e o w)
    unfolding show
    show-IsSettled e o w h =
        Leaves-then_do IsSettled IsSettled _ _
          (Leaves-then_do IsSettled IsSettled _ _ (evaluated_lem (kind.evaluate o w.chart))
            (moved-IsSettled e))
          (λ v k.
            drawing_lem v k
              (render_chart num kind.chart_type kind.draw kind.draw_axis none (some v.chart)))
      where
        evaluated_lem : (c : Option (Chart num)) → Leaves IsSettled (evaluated num w c)
        evaluated_lem none = tt
        evaluated_lem (some c) = h

        drawing_lem :
            (v : Waiting num)
            → IsSettled v
            → (cs : Option (List (Command num))) → Leaves IsSettled (with_drawing num v cs)
        drawing_lem v k none = tt
        drawing_lem v k (some cs) = k

    -- what `_ieWaitForVML` leaves: a chart that waits, or one whose executer does not run
    abbrev IsHandled : Bool × Waiting num → Type 0
    IsHandled (true, w) = IsTracked w
    IsHandled (false, w) = IsSettled w

    after_ready-IsSettled :
        (d : Delay num) (e : Option Element) (w : Waiting num)
        → w.render_delay ≡ d
        → w.orphans ≡ []
        → IsSettled (after_ready num d doc e w)
    after_ready-IsSettled no_delay e w p h = (h, subst IsIdle (sym p) tt)
    after_ready-IsSettled stopped e w p h = (h, tt)
    after_ready-IsSettled (running o) e w p h = (h, tt)

    not_ready-IsTracked :
        (d : Delay num) (o : Options num) (w : Waiting num)
        → w.is_ie ≡ true
        → w.orphans ≡ []
        → IsTracked (not_ready num d o w)
    not_ready-IsTracked no_delay o w h k = (k, λ q. absurd (ground arith))
    not_ready-IsTracked stopped o w h k = (k, λ q. absurd (ground arith))
    not_ready-IsTracked (running p) o w h k = (k, λ q. absurd (ground arith))

    ie_wait-IsHandled :
        (ready : Bytes → Bool) (e : Option Element) (o : Options num) (w : Waiting num) (ie : Bool)
        → w.is_ie ≡ ie
        → IsTracked w
        → IsHandled (if ie then ie_wait num doc ready e o w else (false, w))
    unfolding ie_wait
    ie_wait-IsHandled ready e o w false p h = (h.0, h.1 p)
    ie_wait-IsHandled ready e o w true p h =
        ready_lem (push_request num doc e o w) (push_lem e).0 (push_lem e).1
          (ready (push_request num doc e o w).canvas)
      where
        push_lem :
            (e : Option Element)
            → ((push_request num doc e o w).is_ie ≡ true)
              × ((push_request num doc e o w).orphans ≡ [])
        push_lem none = (p, h.0)
        push_lem (some f) = (p, h.0)

        ready_lem :
            (v : Waiting num)
            → v.is_ie ≡ true
            → v.orphans ≡ []
            → (b : Bool)
            → IsHandled (
                if b
                then (false, after_ready num v.render_delay doc e v)
                else (true, not_ready num v.render_delay o v))
        ready_lem v q k true = after_ready-IsSettled v.render_delay e v refl k
        ready_lem v q k false = not_ready-IsTracked v.render_delay o v q k

    settled_lem : (w : Waiting num) → IsSettled w → IsTracked w
    settled_lem w (h, k) = (h, λ p. k)

    next_request-IsTracked :
        (f : Bytes → Options num → Waiting num → Outcome num) (w : Waiting num)
        → ((id : Bytes) (o : Options num) (v : Waiting num)
            → IsTracked v
            → Leaves IsTracked (f id o v))
        → IsSettled w
        → Leaves IsTracked (next_request num f w)
    next_request-IsTracked f w h k = choose_lem w.is_ie w.render_stack
      where
        choose_lem :
            (ie : Bool) (s : List (Bytes × Options num))
            → Leaves IsTracked (if ie then first_of num f w s else done w)
        choose_lem false s = settled_lem w k
        choose_lem true [] = settled_lem w k
        choose_lem true ((id, o) ∷ s) = h id o w (settled_lem w k)

    unless_waiting-IsTracked :
        (bw : Bool × Waiting num) (f : Waiting num → Outcome num)
        → IsHandled bw
        → ((v : Waiting num) → IsSettled v → Leaves IsTracked (f v))
        → Leaves IsTracked (unless_waiting num bw f)
    unless_waiting-IsTracked (true, w) f h k = h
    unless_waiting-IsTracked (false, w) f h k = k w h

    render_waiting-IsTracked :
        (fuel : ℕ) (ready : Bytes → Bool) (e : Option Element) (o : Options num) (w : Waiting num)
        → IsTracked w
        → Leaves IsTracked (render_waiting num fuel kind doc ready e o w)
    unfolding render_waiting
    render_waiting-IsTracked zero ready e o w h = tt
    render_waiting-IsTracked (suc fuel) ready e o w h =
        let again = λ (id : Bytes). render_waiting-IsTracked fuel ready (some (by_id id)) in
        unless_waiting-IsTracked _ _ (ie_wait-IsHandled ready e o w w.is_ie refl h) (λ v k.
          Leaves-then_do IsSettled IsTracked _ _ (show-IsSettled e o v k)
            (λ u. next_request-IsTracked _ u again))

    handle-IsTracked :
        (ready : Bytes → Bool) (event : Event num) (w : Waiting num)
        → IsTracked w
        → Leaves IsTracked (handle num kind doc ready event w)
    unfolding handle reset_waiting
    handle-IsTracked ready (call e o) w h = render_waiting-IsTracked 2 ready e o w h
    handle-IsTracked ready tick w h = tick_lem w.render_delay
      where
        tick_lem :
            (d : Delay num)
            → Leaves IsTracked (
                on_tick num d
                  (λ o. render_waiting num 2 kind doc ready (some (node w.canvas)) o w)
                  w)
        tick_lem no_delay = h
        tick_lem stopped = h
        tick_lem (running o) = render_waiting-IsTracked 2 ready (some (node w.canvas)) o w h
    handle-IsTracked ready reset_call w h = reset_lem w.render_delay refl
      where
        reset_lem :
            (d : Delay num)
            → w.render_delay ≡ d
            → IsTracked (stop_delay num d (record w { chart = reset num w.chart }))
        reset_lem no_delay p = h
        reset_lem stopped p = (h.0, λ q. tt)
        reset_lem (running o) p = (h.0, λ q. tt)
    handle-IsTracked ready (orphan_tick i) w h =
        subst (λ os. Leaves IsTracked (on_orphan num os i f w)) (sym h.0) h
      where
        f : Options num → Outcome num
        f o = render_waiting num 2 kind doc ready (some (node w.canvas)) o w

    handle_all-IsTracked :
        (es : List ((Bytes → Bool) × Event num)) (w : Waiting num)
        → IsTracked w
        → Leaves IsTracked (handle_all num kind doc es w)
    unfolding handle_all
    handle_all-IsTracked [] w h = h
    handle_all-IsTracked ((ready, e) ∷ es) w h =
        Leaves-then_do IsTracked IsTracked _ _ (handle-IsTracked ready e w h)
          (handle_all-IsTracked es)

    settle_all : (x : Outcome num) → Leaves IsSettled x → Leaves IsTracked x
    settle_all (done w) h = settled_lem w h
    settle_all thrown h = tt
    settle_all out_of_fuel h = tt

    constructed-IsTracked :
        (id : Bytes) (c : Chart num) → Leaves IsTracked (constructed num doc id c)
    unfolding init_waiting
    constructed-IsTracked id c =
        settle_all _
          (with_canvas-IsSettled (doc.page_of id).is_ie id (uninitialised num id c) _ (refl, tt))

    -- Whatever happens to a chart behind its constructor, calls, resets and ticks in any order: the only
    -- executer that can run is that of `renderDelay`, as none is lost, and none runs where the browser
    -- has a canvas of its own.
    pub run-IsTracked :
        (id : Bytes) (c : Chart num) (es : List ((Bytes → Bool) × Event num)) (w : Waiting num)
        → then_do num (constructed num doc id c) (handle_all num kind doc es) ≡ done w
        → IsTracked w
    run-IsTracked id c es w p = subst (Leaves IsTracked) p (
        Leaves-then_do IsTracked IsTracked _ _ (constructed-IsTracked id c)
          (handle_all-IsTracked es))
