-- ===== src/Plotr/Vml/Ready.antt =====
-- What the requests come to that a chart meets while it waits for the emulation.
use dbslayer.Prelude.{
  ℕ, ◌≤◌, ◌<◌, ◌≡◌, refl, sym, ap, ap₂, ◌∙◌, Bool, true, false, List, [], ◌∷◌, ◌++◌, Bytes, Option,
  none, some, length, All, arith, if◌then◌else◌,
}
use dbslayer.Json.Value.{ℤ, pos}
use dbslayer.Plotr.Number.{Number}
use dbslayer.Plotr.Chart.{Chart, init_canvas}
use dbslayer.Plotr.Vml.{
  Element, by_id, node, Options, Kind, Document, Delay, no_delay, stopped, running, Waiting,
  Outcome, done, thrown, out_of_fuel, then_do, init_waiting, ie_wait, with_canvas, after_ready,
  push_request, not_ready,
}
use dbslayer.Plotr.Vml.Render.{
  show, draw_chart, next_request, render_waiting, unless_waiting, evaluated, moved, Event, call,
  tick, handle, handle_all,
}
use dbslayer.Plotr.Vml.Wait.{
  IsUnready, with_delay, pushed, render_unready, behind, keep_waiting, too_many_tries,
}

module _ (num : Number) (kind : Kind num) (doc : Document num) where
  handle_all-append :
      (es fs : List ((Bytes → Bool) × Event num)) (w : Waiting num)
      → handle_all num kind doc (es ++ fs) w
        ≡ then_do num (handle_all num kind doc es w) (handle_all num kind doc fs)
  unfolding handle_all
  handle_all-append [] fs w = refl
  handle_all-append ((ready, e) ∷ es) fs w =
      rest_lem (handle num kind doc ready e w) (handle_all-append es fs)
    where
      rest_lem :
          (x : Outcome num)
          → ((v : Waiting num)
              → handle_all num kind doc (es ++ fs) v
                ≡ then_do num (handle_all num kind doc es v) (handle_all num kind doc fs))
          → then_do num x (handle_all num kind doc (es ++ fs))
            ≡ then_do num (then_do num x (handle_all num kind doc es)) (handle_all num kind doc fs)
      rest_lem (done v) h = h v
      rest_lem thrown h = refl
      rest_lem out_of_fuel h = refl

  -- the own canvas is initialised anew, and with it what the waiting has changed
  canvas_lem :
      (m l : ℤ) (s t : List (Bytes × Options num)) (w : Waiting num) (c : Option (Chart num))
      (ie : Bool)
      → ie ≡ true
      → with_canvas num ie w.canvas (with_delay num m stopped s w) c
        ≡ with_canvas num ie w.canvas (with_delay num l no_delay t w) c
  canvas_lem m l s t w none ie h = refl
  canvas_lem m l s t w (some c) true h = refl
  canvas_lem m l s t w (some c) false h = absurd (ground arith)

  show_lem :
      (o : Options num) (m l : ℤ) (s t : List (Bytes × Options num)) (w : Waiting num)
      → (doc.page_of w.canvas).is_ie ≡ true
      → show num kind doc (some (node w.canvas)) o (with_delay num m stopped s w)
        ≡ show num kind doc (some (node w.canvas)) o (with_delay num l no_delay t w)
  unfolding show init_waiting
  show_lem o m l s t w h =
      ap (λ x. then_do num x (draw_chart num kind)) (moved_lem (kind.evaluate o w.chart))
    where
      moved_lem :
          (c : Option (Chart num))
          → then_do num
              (evaluated num (with_delay num m stopped s w) c)
              (moved num doc (some (node w.canvas)))
            ≡ then_do num
                (evaluated num (with_delay num l no_delay t w) c)
                (moved num doc (some (node w.canvas)))
      moved_lem none = refl
      moved_lem (some c) =
          canvas_lem m l s t (record w { chart = c }) (init_canvas num (doc.page_of w.canvas) c)
            (doc.page_of w.canvas).is_ie h

  no_wait_lem :
      (ie b : Bool) (u v x : Waiting num) (f : Waiting num → Outcome num)
      → ie ≡ true
      → b ≡ true
      → unless_waiting num (if ie then if b then (false, v) else (true, u) else (false, x)) f ≡ f v
  no_wait_lem ie b u v x f h k = rw (h, k)

  render_ready :
      (ready : Bytes → Bool) (o : Options num) (w : Waiting num)
      → w.is_ie ≡ true
      → ready w.canvas ≡ true
      → render_waiting num 2 kind doc ready (some (node w.canvas)) o w
        ≡ then_do num
            (show num kind doc (some (node w.canvas)) o (
              after_ready num w.render_delay doc
                (some (node w.canvas))
                (push_request num doc (some (node w.canvas)) o w)))
            (next_request num (λ id. render_waiting num 1 kind doc ready (some (by_id id))))
  unfolding render_waiting ie_wait
  render_ready ready o w h k = no_wait_lem w.is_ie (ready w.canvas) _ _ _ _ h k

  ready_lem :
      (ready : Bytes → Bool) (o : Options num) (m l : ℤ) (s t : List (Bytes × Options num))
      (w : Waiting num)
      → w.is_ie ≡ true
      → ready w.canvas ≡ true
      → (doc.page_of w.canvas).is_ie ≡ true
      → render_waiting num 2 kind doc ready
          (some (node w.canvas))
          o
          (with_delay num m (running o) s w)
        ≡ render_waiting num 2 kind doc ready
            (some (node w.canvas))
            o
            (with_delay num l no_delay t w)
  unfolding render_waiting ie_wait
  ready_lem ready o m l s t w h k p =
      render_ready ready o (with_delay num m (running o) s w) h k
      ∙ ap
          (λ x.
            then_do num x
              (next_request num (λ id. render_waiting num 1 kind doc ready (some (by_id id)))))
          (show_lem o _ _ _ _ w p)
      ∙ sym (render_ready ready o (with_delay num l no_delay t w) h k)

  -- one request, which finds the canvas not ready, and those that follow
  first_lem :
      (first : Bytes → Bool) (e : Option Element) (o : Options num) (n : ℕ) (w : Waiting num)
      → w.is_ie ≡ true
      → w.render_delay ≡ no_delay
      → w.max_tries ≡ pos n
      → first w.canvas ≡ false
      → handle num kind doc first (call e o) w
        ≡ done (with_delay num (pos n) (running o) (pushed num kind doc e o w.render_stack) w)
  unfolding handle
  first_lem first e o n w h d m k =
      render_unready num kind doc first e o w.max_tries w.render_delay w.render_stack w h k
      ∙ ap₂
          (λ (m : ℤ) (d : Delay num).
            done
              (not_ready num d o (with_delay num m d (pushed num kind doc e o w.render_stack) w)))
          m d

  -- A browser without a canvas of its own, and a chart that is not waiting. A call of `render` finds the
  -- emulation not ready, and so do at most as many calls and ticks behind it as tries are left; then a
  -- tick finds it ready. The outcome is that of one call on the own canvas with the options of the first
  -- call, as if nothing had come before: the element that the first call named and all later requests
  -- are lost.
  pub handle_all-ready :
      (w : Waiting num) (n : ℕ) (first last : Bytes → Bool) (e : Option Element) (o : Options num)
      (es : List ((Bytes → Bool) × Event num))
      → w.is_ie ≡ true
      → (doc.page_of w.canvas).is_ie ≡ true
      → w.render_delay ≡ no_delay
      → w.max_tries ≡ pos n
      → first w.canvas ≡ false
      → All (IsUnready num w.canvas) es
      → length es ≤ n
      → last w.canvas ≡ true
      → handle_all num kind doc ((first, call e o) ∷ es ++ (last, tick) ∷ []) w
        ≡ handle num kind doc last (call (some (node w.canvas)) o) w
  unfolding handle_all handle
  handle_all-ready w n first last e o es h p d m k u l r =
      let (j, t, q) = keep_waiting num kind doc es o n _ w h u l in
      let ready = ready_lem last o (pos j) (pos n) t w.render_stack w h r p in
      let fresh =
        ap₂ (λ (m : ℤ) (d : Delay num). with_delay num m d w.render_stack w) (sym m) (sym d) in
      behind num kind doc (es ++ (last, tick) ∷ []) (first_lem first e o n w h d m k) (
        handle_all-append es ((last, tick) ∷ []) _
        ∙ behind num kind doc ((last, tick) ∷ []) q (
            one_lem _
            ∙ ready
            ∙ ap (render_waiting num 2 kind doc last (some (node w.canvas)) o) fresh))
    where
      one_lem : (x : Outcome num) → then_do num x (handle_all num kind doc []) ≡ x
      one_lem (done v) = refl
      one_lem thrown = refl
      one_lem out_of_fuel = refl

  -- A browser without a canvas of its own, and a chart that is not waiting. A call of `render` finds the
  -- emulation not ready, and so do more calls and ticks behind it than tries are left. Then the executer
  -- is stopped, and chart and canvas are as they were: nothing was drawn.
  pub handle_all-gives_up :
      (w : Waiting num) (n : ℕ) (first : Bytes → Bool) (e : Option Element) (o : Options num)
      (es : List ((Bytes → Bool) × Event num))
      → w.is_ie ≡ true
      → w.render_delay ≡ no_delay
      → w.max_tries ≡ pos n
      → first w.canvas ≡ false
      → All (IsUnready num w.canvas) es
      → n < length es
      → (v : Waiting num) × (handle_all num kind doc ((first, call e o) ∷ es) w ≡ done v)
        × (v.render_delay ≡ stopped)
        × (v.chart ≡ w.chart)
        × (v.drawn ≡ w.drawn)
  unfolding handle_all
  handle_all-gives_up w n first e o es h d m k u l =
      let (j, t, q) = too_many_tries num kind doc es o n _ w h u l in
      (_, behind num kind doc es (first_lem first e o n w h d m k) q, refl, refl, refl)
