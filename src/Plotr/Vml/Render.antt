-- ===== src/Plotr/Vml/Render.antt =====
-- htdocs/plotr/{Canvas,LineChart,BarChart,PieChart}.js: `render` with the waiting for the emulation, and
-- the events that a chart meets.
use dbslayer.Prelude.{
  ℕ, zero, suc, Bool, true, false, List, [], ◌∷◌, Bytes, Option, none, some, if◌then◌else◌,
}
use dbslayer.Plotr.Number.{Number}
use dbslayer.Plotr.Chart.{Chart, reset}
use dbslayer.Plotr.Canvas.{Command, render_chart}
use dbslayer.Plotr.Vml.{
  Element, by_id, node, id_of, Options, Kind, Document, Delay, no_delay, stopped, running, Waiting,
  Outcome, done, thrown, out_of_fuel, then_do, init_waiting, ie_wait,
}

module _ (num : Number) where
  abbrev pub evaluated : Waiting num → Option (Chart num) → Outcome num
  evaluated w none = thrown
  evaluated w (some c) = done (record w { chart = c })

  abbrev pub with_drawing : Waiting num → Option (List (Command num)) → Outcome num
  with_drawing w none = thrown
  with_drawing w (some cs) = done (record w { drawn = cs ∷ w.drawn })

  abbrev pub moved : Document num → Option Element → Waiting num → Outcome num
  moved doc none w = done w
  moved doc (some e) w = init_waiting num doc (id_of e) w

  abbrev pub draw_chart : Kind num → Waiting num → Outcome num
  draw_chart kind w =
      with_drawing w (render_chart num kind.chart_type kind.draw kind.draw_axis none (some w.chart))

  -- `_evaluate`, `_render` and the two calls behind them
  unfoldable pub show :
      Kind num → Document num → Option Element → Options num → Waiting num → Outcome num
  unfolding init_waiting
  show kind doc e o w =
      then_do num (then_do num (evaluated w (kind.evaluate o w.chart)) (moved doc e))
        (draw_chart kind)

  abbrev pub first_of :
      (Bytes → Options num → Waiting num → Outcome num)
      → Waiting num
      → List (Bytes × Options num)
      → Outcome num
  first_of again w [] = done w
  first_of again w ((key, o) ∷ s) = again key o w

  -- the loop behind the drawing, which makes one round at most; behind the requests come functions that
  -- every array has
  abbrev pub next_request :
      (Bytes → Options num → Waiting num → Outcome num) → Waiting num → Outcome num
  next_request again w = if w.is_ie then first_of again w w.render_stack else done w

  abbrev pub unless_waiting : Bool × Waiting num → (Waiting num → Outcome num) → Outcome num
  unless_waiting (true, w) f = done w
  unless_waiting (false, w) f = f w

  -- `render`, on fuel; `render` calls itself for the first request in the stack
  unfoldable pub render_waiting :
      ℕ
      → Kind num
      → Document num
      → (Bytes → Bool)
      → Option Element
      → Options num
      → Waiting num
      → Outcome num
  unfolding ie_wait show
  render_waiting zero kind doc ready e o w = out_of_fuel
  render_waiting (suc fuel) kind doc ready e o w =
      let again = λ (id : Bytes). render_waiting fuel kind doc ready (some (by_id id)) in
      let wait = if w.is_ie then ie_wait num doc ready e o w else (false, w) in
      unless_waiting wait (λ v. then_do num (show kind doc e o v) (next_request again))

  abbrev pub without_delay : Waiting num → Waiting num
  without_delay w = record w { render_delay = no_delay }

  abbrev pub stop_delay : Delay num → Waiting num → Waiting num
  stop_delay no_delay w = w
  stop_delay stopped w = without_delay w
  stop_delay (running o) w = without_delay w

  -- `reset`
  unfoldable pub reset_waiting : Waiting num → Waiting num
  reset_waiting w = stop_delay w.render_delay (record w { chart = reset num w.chart })

  -- What happens to a chart: a call of `render` or `reset`, the timer of `renderDelay`, or that of an
  -- executer which `renderDelay` does not refer to.
  pub data Event : Type 0 where
    call : Option Element → Options num → Event
    tick reset_call : Event
    orphan_tick : ℕ → Event

  abbrev pub on_tick : Delay num → (Options num → Outcome num) → Waiting num → Outcome num
  on_tick no_delay f w = done w
  on_tick stopped f w = done w
  on_tick (running o) f w = f o

  abbrev pub on_orphan :
      List (Options num) → ℕ → (Options num → Outcome num) → Waiting num → Outcome num
  on_orphan [] i f w = done w
  on_orphan (o ∷ os) zero f w = f o
  on_orphan (o ∷ os) (suc i) f w = on_orphan os i f w

  -- The callback of an executer passes the canvas.
  unfoldable pub handle :
      Kind num → Document num → (Bytes → Bool) → Event → Waiting num → Outcome num
  unfolding render_waiting reset_waiting
  handle kind doc ready (call e o) w = render_waiting 2 kind doc ready e o w
  handle kind doc ready tick w =
      on_tick w.render_delay (λ o. render_waiting 2 kind doc ready (some (node w.canvas)) o w) w
  handle kind doc ready reset_call w = done (reset_waiting w)
  handle kind doc ready (orphan_tick i) w =
      on_orphan w.orphans i (λ o. render_waiting 2 kind doc ready (some (node w.canvas)) o w) w

  -- events, each with the canvases that are ready then
  unfoldable pub handle_all :
      Kind num → Document num → List ((Bytes → Bool) × Event) → Waiting num → Outcome num
  unfolding handle
  handle_all kind doc [] w = done w
  handle_all kind doc ((ready, event) ∷ es) w =
      then_do num (handle kind doc ready event w) (handle_all kind doc es)
