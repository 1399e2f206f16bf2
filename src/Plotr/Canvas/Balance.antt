-- ===== src/Plotr/Canvas/Balance.antt =====
-- The drawing state of the canvas: `save` and `restore` are paired.
use dbslayer.Prelude.{
  ℕ, zero, suc, ◌≡◌, refl, sym, ap, subst, ◌∙◌, ap₂, append_assoc, All, Bool, true, false, not,
  ◌&&◌, List, [], ◌∷◌, ◌++◌, Option, none, some, if◌then◌else◌,
}
use dbslayer.Plotr.Number.{Number}
use dbslayer.Plotr.Chart.{Chart, ChartType, Tick}
use dbslayer.Plotr.Canvas.{
  Command, save, restore, each_tick, framed, before, and_then, when, background_line, is_horizontal,
  sweet_background, sweet_start, axis_start, x_tick_commands, y_tick_commands, render_background,
  render_axis,
}

module _ (num : Number) where
  unfoldable pub pop : ℕ → (ℕ → Option ℕ) → Option ℕ
  pop zero k = none
  pop (suc d) k = k d

  -- The number of saved states behind the commands; `none` is a `restore` without a `save`.
  unfoldable pub depth_after : List (Command num) → ℕ → Option ℕ
  unfolding pop
  depth_after [] d = some d
  depth_after (save ∷ cs) d = depth_after cs (suc d)
  depth_after (restore ∷ cs) d = pop d (λ e. depth_after cs e)
  depth_after (_ ∷ cs) d = depth_after cs d

  -- Whatever follows the commands finds as many states saved as there were before them.
  unfoldable pub Balanced : List (Command num) → Type 0
  Balanced cs =
      (rest : List (Command num)) (d : ℕ) → depth_after (cs ++ rest) d ≡ depth_after rest d

  -- no exception, and balanced commands
  abbrev pub DrawsBalanced : Option (List (Command num)) → Type 0
  DrawsBalanced o = (cs : List (Command num)) × ((o ≡ some cs) × Balanced cs)

  -- a tick, and not `undefined`
  abbrev pub IsTick : Option (Tick num) → Type 0
  IsTick none = ⊥
  IsTick (some t) = Unit

  pub Balanced-append :
      (xs ys : List (Command num)) → Balanced xs → Balanced ys → Balanced (xs ++ ys)
  unfolding Balanced
  Balanced-append xs ys h k rest d =
      ap (λ cs. depth_after cs d) (append_assoc xs ys rest) ∙ h (ys ++ rest) d ∙ k rest d

  pub Balanced-nil : Balanced []
  unfolding Balanced
  Balanced-nil rest d = refl

  -- a `restore` behind balanced commands takes back one level
  restore_lem :
      (cs rest : List (Command num)) (d : ℕ)
      → Balanced cs
      → depth_after ((cs ++ restore ∷ []) ++ rest) (suc d) ≡ depth_after rest d
  unfolding Balanced depth_after pop
  restore_lem cs rest d h =
      ap (λ ds. depth_after ds (suc d)) (append_assoc cs (restore ∷ []) rest)
      ∙ h (restore ∷ rest) (suc d)

  draws_lem :
      (start cs : List (Command num)) (o : Option (List (Command num)))
      → (o ≡ some cs)
      → Balanced (start ++ cs ++ restore ∷ [])
      → DrawsBalanced (framed num start o)
  draws_lem start cs o e h = subst (λ p. DrawsBalanced (framed num start p)) (sym e) (_, (refl, h))

  each_tick-DrawsBalanced :
      (draw : Tick num → List (Command num)) (ts : List (Option (Tick num)))
      → ((t : Tick num) → Balanced (draw t))
      → All IsTick ts
      → DrawsBalanced (each_tick num draw ts)
  unfolding each_tick
  each_tick-DrawsBalanced draw [] h all = (_, (refl, Balanced-nil))
  each_tick-DrawsBalanced draw (none ∷ ts) h (bad, all) = elim bad [ ]
  each_tick-DrawsBalanced draw (some t ∷ ts) h (_, all) =
      let r = each_tick-DrawsBalanced draw ts h all in
      (_, (ap (before num (draw t)) r.1.0, Balanced-append (draw t) r.0 (h t) r.1.1))

  and_then-DrawsBalanced :
      (o p : Option (List (Command num)))
      → DrawsBalanced o
      → DrawsBalanced p
      → DrawsBalanced (and_then num o p)
  and_then-DrawsBalanced o p (cs, (e, h)) (ds, (f, k)) =
      (_, (ap₂ (and_then num) e f, Balanced-append cs ds h k))

  when-DrawsBalanced :
      (b : Bool) (o : Option (List (Command num))) → DrawsBalanced o → DrawsBalanced (when num b o)
  when-DrawsBalanced true o h = h
  when-DrawsBalanced false o h = (_, (refl, Balanced-nil))

  pub start_lem :
      (cs : List (Command num))
      → Balanced cs
      → (rest : List (Command num)) (d : ℕ)
      → depth_after ((cs ++ restore ∷ []) ++ rest) (suc d) ≡ depth_after rest d
  start_lem cs h rest d = restore_lem cs rest d h

  pub both_lem :
      (xs ys : List (Command num))
      → Balanced xs
      → Balanced ys
      → (rest : List (Command num)) (d : ℕ)
      → depth_after ((xs ++ ys ++ restore ∷ []) ++ rest) (suc d) ≡ depth_after rest d
  both_lem xs ys h k rest d = restore_lem (xs ++ ys) rest d (Balanced-append xs ys h k)

  abbrev pub Framed : List (Command num) → Type 0
  Framed start = (cs : List (Command num)) → Balanced cs → Balanced (start ++ cs ++ restore ∷ [])

  framed-DrawsBalanced :
      (start : List (Command num)) (o : Option (List (Command num)))
      → Framed start
      → DrawsBalanced o
      → DrawsBalanced (framed num start o)
  framed-DrawsBalanced start o f (cs, (e, h)) = draws_lem start cs o e (f cs h)

  choose-DrawsBalanced :
      (b : Bool) (o p : Option (List (Command num)))
      → DrawsBalanced o
      → DrawsBalanced p
      → DrawsBalanced (if b then o else p)
  choose-DrawsBalanced true o p h k = h
  choose-DrawsBalanced false o p h k = k

  choose-IsTick :
      (b : Bool) (xs ys : List (Option (Tick num)))
      → All IsTick xs
      → All IsTick ys
      → All IsTick (if b then xs else ys)
  choose-IsTick true xs ys h k = h
  choose-IsTick false xs ys h k = k

  line_lem :
      (c : Chart num) (horiz : Bool) (t : Tick num) → Balanced (background_line num c horiz t.pos)
  unfolding Balanced depth_after
  line_lem c true t rest d = refl
  line_lem c false t rest d = refl

  background_lem :
      (t : ChartType) (c : Chart num)
      → All IsTick c.xticks
      → All IsTick c.yticks
      → DrawsBalanced (render_background num t c)
  unfolding render_background Balanced depth_after pop
  background_lem t c xs ys =
      let horiz = is_horizontal num t c.options.bar_orientation in
      choose-DrawsBalanced c.options.sweet_render (sweet_background num c horiz) _
        (framed-DrawsBalanced (sweet_start num c) _ start_lem (
          each_tick-DrawsBalanced (λ t. background_line num c horiz t.pos) _ (line_lem c horiz)
            (choose-IsTick horiz c.xticks c.yticks xs ys)))
        (_, (refl, λ rest d. refl))

  axis_lem :
      (c : Chart num)
      → All IsTick c.xticks
      → All IsTick c.yticks
      → DrawsBalanced (render_axis num c)
  unfolding render_axis Balanced depth_after pop
  axis_lem c xs ys =
      choose-DrawsBalanced (not c.options.draw_x_axis && not c.options.draw_y_axis) _ _
        (_, (refl, Balanced-nil))
        (framed-DrawsBalanced (axis_start num c) _ start_lem (
          and_then-DrawsBalanced _ _
            (when-DrawsBalanced c.options.draw_y_axis _ (
              and_then-DrawsBalanced _ _
                (each_tick-DrawsBalanced (y_tick_commands num c) c.yticks (λ t rest d. refl) ys)
                (_, (refl, λ rest d. refl))))
            (when-DrawsBalanced c.options.draw_x_axis _ (
              and_then-DrawsBalanced _ _
                (each_tick-DrawsBalanced (x_tick_commands num c) c.xticks (λ t rest d. refl) xs)
                (_, (refl, λ rest d. refl))))))

  -- Background and axes are drawn without an exception when no tick is `undefined`, and every `save`
  -- among the commands has its `restore`.
  pub canvas-DrawsBalanced :
      (t : ChartType) (c : Chart num)
      → All IsTick c.xticks
      → All IsTick c.yticks
      → DrawsBalanced (render_background num t c) × DrawsBalanced (render_axis num c)
  canvas-DrawsBalanced t c xs ys = (background_lem t c xs ys, axis_lem c xs ys)
