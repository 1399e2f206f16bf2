-- ===== src/Plotr/Vml.antt =====
-- htdocs/plotr/Canvas.js: `_initCanvas`, `_ieWaitForVML` and `reset` in a browser without a canvas of its
-- own, where a chart waits for the emulation.
pub mod Render
pub mod Kinds
pub mod Wait
pub mod Ready
pub mod Turns
pub mod Orphans
mod Tests
use dbslayer.Prelude.{
  ℕ, zero, suc, Bool, true, false, List, [], ◌∷◌, Bytes, bytes_eq, Option, none, some,
  if◌then◌else◌,
}
use dbslayer.Json.Value.{ℤ, pos, negsuc, decremented}
use dbslayer.Plotr.Number.{Number}
use dbslayer.Plotr.Settings.{Settings}
use dbslayer.Plotr.Chart.{Chart, ChartType, Page, init_canvas, reset}
use dbslayer.Plotr.Canvas.{Command}

-- What `render` is called with: the id of a canvas element, or a canvas element, which the id of its
-- place in the page stands for.
pub data Element : Type 0 where
  by_id node : Bytes → Element

-- `$(element)`
abbrev pub id_of : Element → Bytes
id_of (by_id id) = id
id_of (node id) = id

-- `n <= 0`
abbrev pub is_used_up : ℤ → Bool
is_used_up (pos zero) = true
is_used_up (pos (suc n)) = false
is_used_up (negsuc n) = true

module _ (num : Number) where
  abbrev pub Options : Type 0
  Options = Option (Settings num → Settings num)

  -- The members that differ between the prototypes of the charts.
  pub record Kind : Type 0 where
    pub chart_type : ChartType
    pub evaluate : Options → Chart num → Option (Chart num)
    pub draw : Chart num → Option (List (Command num))
    pub draw_axis : Chart num → Option (List (Command num))

  -- The document: the canvas of an id, and the text that a node is as the name of a property.
  pub record Document : Type 0 where
    pub page_of : Bytes → Page num
    pub node_text : Bytes

  -- `renderDelay`: null, an executer whose callback has captured options, or one that is stopped. Its
  -- callback uses the captured element only while there is no canvas, and the constructor sets one.
  pub data Delay : Type 0 where
    no_delay stopped : Delay
    running : Options → Delay

  pub record Waiting : Type 0 where
    pub chart : Chart num
    -- the id of `canvasNode`
    pub canvas : Bytes
    pub is_ie : Bool
    pub max_tries : ℤ
    pub render_delay : Delay
    -- executers that run although `renderDelay` no longer refers to them
    pub orphans : List Options
    pub render_stack : List (Bytes × Options)
    -- what each finished `render` has drawn, the latest first
    pub drawn : List (List (Command num))

  pub data Outcome : Type 0 where
    done : Waiting → Outcome
    thrown out_of_fuel : Outcome

  abbrev pub then_do : Outcome → (Waiting → Outcome) → Outcome
  then_do (done w) f = f w
  then_do thrown f = thrown
  then_do out_of_fuel f = out_of_fuel

  abbrev pub left_running : Delay → List Options → List Options
  left_running no_delay os = os
  left_running stopped os = os
  left_running (running o) os = o ∷ os

  -- `renderDelay = null` and the other members that the emulation needs
  abbrev pub start_waiting : Waiting → Waiting
  start_waiting w = record w {
    max_tries = pos 10;
    render_delay = no_delay;
    orphans = left_running w.render_delay w.orphans;
    render_stack = [];
  }

  abbrev pub with_canvas : Bool → Bytes → Waiting → Option (Chart num) → Outcome
  with_canvas ie id w none = thrown
  with_canvas ie id w (some c) =
      let v = record w { chart = c; canvas = id; is_ie = ie } in
      done (if ie then start_waiting v else v)

  -- `_initCanvas`, with G_vmlCanvasManager loaded
  unfoldable pub init_waiting : Document → Bytes → Waiting → Outcome
  init_waiting doc id w =
      let page = doc.page_of id in with_canvas page.is_ie id w (init_canvas num page w.chart)

  -- `renderStack[key] = options`
  unfoldable pub stack_put : Bytes → Options → List (Bytes × Options) → List (Bytes × Options)
  stack_put key o [] = (key, o) ∷ []
  stack_put key o ((k, p) ∷ s) =
      let rest = stack_put key o s in if bytes_eq k key then (k, o) ∷ s else (k, p) ∷ rest

  unfoldable pub stack_delete : Bytes → List (Bytes × Options) → List (Bytes × Options)
  stack_delete key [] = []
  stack_delete key ((k, p) ∷ s) =
      let rest = stack_delete key s in if bytes_eq k key then s else (k, p) ∷ rest

  abbrev pub key_of : Document → Element → Bytes
  key_of doc (by_id id) = id
  key_of doc (node id) = doc.node_text

  -- `element || this.canvasNode`: the empty id is false as well
  abbrev pub key_or_canvas : Document → Option Element → Bytes
  key_or_canvas doc none = doc.node_text
  key_or_canvas doc (some (node id)) = doc.node_text
  key_or_canvas doc (some (by_id [])) = doc.node_text
  key_or_canvas doc (some (by_id (b ∷ id))) = b ∷ id

  abbrev pub push_request : Document → Option Element → Options → Waiting → Waiting
  push_request doc none o w = w
  push_request doc (some e) o w = record w {
    render_stack = stack_put (key_of doc e) o w.render_stack;
  }

  -- `else if (this.maxTries-- <= 0) this.renderDelay.stop()`
  abbrev pub try_again : Delay → Waiting → Waiting
  try_again d w = record w {
    max_tries = decremented w.max_tries;
    render_delay = if is_used_up w.max_tries then stopped else d;
  }

  -- the `catch` block
  abbrev pub not_ready : Delay → Options → Waiting → Waiting
  not_ready no_delay o w = record w { render_delay = running o }
  not_ready stopped o w = try_again stopped w
  not_ready (running p) o w = try_again (running p) w

  abbrev pub stop_waiting : Document → Option Element → Waiting → Waiting
  stop_waiting doc e w = record w {
    render_delay = stopped;
    render_stack = stack_delete (key_or_canvas doc e) w.render_stack;
  }

  -- behind the `catch` block
  abbrev pub after_ready : Delay → Document → Option Element → Waiting → Waiting
  after_ready no_delay doc e w = w
  after_ready stopped doc e w = stop_waiting doc e w
  after_ready (running o) doc e w = stop_waiting doc e w

  -- `_ieWaitForVML`: whether to wait, and the new state. `ready` says of a canvas whether its
  -- `getContext` returns.
  unfoldable pub ie_wait :
      Document → (Bytes → Bool) → Option Element → Options → Waiting → Bool × Waiting
  unfolding stack_put stack_delete
  ie_wait doc ready e o w =
      let v = push_request doc e o w in
      if ready v.canvas
      then (false, after_ready v.render_delay doc e v)
      else (true, not_ready v.render_delay o v)

  -- the members in front of the constructor's call of `_initCanvas`; those that the emulation needs are
  -- undefined
  abbrev pub uninitialised : Bytes → Chart num → Waiting
  uninitialised id c = record {
    chart = c;
    canvas = id;
    is_ie = false;
    max_tries = pos 0;
    render_delay = no_delay;
    orphans = [];
    render_stack = [];
    drawn = [];
  }

  -- the state that the constructor leaves
  abbrev pub constructed : Document → Bytes → Chart num → Outcome
  constructed doc id c = init_waiting doc id (uninitialised id c)
