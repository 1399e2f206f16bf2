-- ===== src/Plotr/Vml/Tests.antt =====
-- A chart on two canvases in a browser that has none of its own, and an application of each theorem
-- about the waiting.
use dbslayer.Prelude.{
  ◌≡◌, ◌≢◌, refl, true, false, Bool, List, [], ◌∷◌, ◌++◌, Bytes, bytes_eq, codes, some, none,
  replicate, arith,
}
use dbslayer.Json.Value.{pos}
use dbslayer.Plotr.Chart.{Page, area_of, init_canvas}
use dbslayer.Plotr.Tests.{naturals, chart}
use dbslayer.Plotr.Vml.{
  by_id, node, Kind, Document, Waiting, done, out_of_fuel, no_delay, stopped, running, init_waiting,
  ie_wait, stack_put,
}
use dbslayer.Plotr.Vml.Render.{render_waiting, Event, call, tick, handle, handle_all}
use dbslayer.Plotr.Vml.Kinds.{bar_kind}
use dbslayer.Plotr.Vml.Ready.{handle_all-ready, handle_all-gives_up}
use dbslayer.Plotr.Vml.Turns.{render_waiting-fuel}
use dbslayer.Plotr.Vml.Orphans.{IsTracked, run-IsTracked}

abbrev old_page : Page naturals
old_page = record {
  has_canvas = true;
  is_in_div = true;
  is_ie = true;
  is_supported = false;
  width = 300;
  height = 200;
}

abbrev document : Document naturals
document = record { page_of = λ id. old_page; node_text = codes "[object]" }

abbrev waiting : Waiting naturals
waiting = record {
  chart = chart;
  canvas = codes "bar";
  is_ie = true;
  max_tries = pos 10;
  render_delay = no_delay;
  orphans = [];
  render_stack = [];
  drawn = [];
}

abbrev kind : Kind naturals
kind = bar_kind naturals []

abbrev not_yet : Bytes → Bool
not_yet id = false

abbrev by_now : Bytes → Bool
by_now id = true

-- a call for another canvas, and a tick
abbrev later : List ((Bytes → Bool) × Event naturals)
later = (not_yet, call (some (by_id (codes "other"))) none) ∷ (not_yet, tick) ∷ []

handle_all-ready_example :
    handle_all naturals kind document
      ((not_yet, call (some (by_id (codes "first"))) none) ∷ later ++ (by_now, tick) ∷ [])
      waiting
    ≡ handle naturals kind document by_now (call (some (node (codes "bar"))) none) waiting
handle_all-ready_example =
    handle_all-ready naturals kind document waiting 10 not_yet by_now (some (by_id (codes "first")))
      none later refl refl refl refl refl ((refl, tt), ((refl, tt), tt)) (omega arith) refl

abbrev eleven_ticks : List ((Bytes → Bool) × Event naturals)
eleven_ticks = replicate 11 (not_yet, tick)

handle_all-gives_up_example :
    (v : Waiting naturals) × (handle_all naturals kind document
        ((not_yet, call none none) ∷ eleven_ticks)
        waiting
      ≡ done v)
    × (v.render_delay ≡ stopped)
    × (v.chart ≡ chart)
    × (v.drawn ≡ [])
handle_all-gives_up_example =
    handle_all-gives_up naturals kind document waiting 10 not_yet none none eleven_ticks refl refl
      refl refl
      (
        (refl, tt),
        (
          (refl, tt),
          (
            (refl, tt),
            (
              (refl, tt),
              (
                (refl, tt),
                (
                  (refl, tt),
                  ((refl, tt), ((refl, tt), ((refl, tt), ((refl, tt), ((refl, tt), tt))))),
                ),
              ),
            ),
          ),
        ),
      )
      (omega arith)

render_waiting-fuel_example :
    (render_waiting naturals 5 kind document by_now none none waiting
      ≡ render_waiting naturals 2 kind document by_now none none waiting)
    × (render_waiting naturals 2 kind document by_now none none waiting ≢ out_of_fuel)
render_waiting-fuel_example = render_waiting-fuel naturals kind document 3 by_now none none waiting

-- the chart after its constructor, a call that found the emulation not ready, and a tick like it
abbrev still_waiting : Waiting naturals
still_waiting = record waiting {
  chart = record chart { page = old_page; area = area_of naturals chart.options old_page };
  max_tries = pos 9;
  render_delay = running none;
  render_stack = (codes "[object]", none) ∷ [];
}

run-IsTracked_example : IsTracked naturals still_waiting
unfolding handle_all handle render_waiting ie_wait stack_put init_waiting init_canvas bytes_eq
run-IsTracked_example =
    run-IsTracked naturals kind document (codes "bar") chart
      ((not_yet, call none none) ∷ (not_yet, tick) ∷ []) still_waiting refl
