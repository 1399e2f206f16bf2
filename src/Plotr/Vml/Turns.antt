-- ===== src/Plotr/Vml/Turns.antt =====
-- `render` calls itself once at most.
use dbslayer.Prelude.{
  ℕ, suc, ◌≡◌, ◌≢◌, refl, sym, ap, subst, fun_ext, ◌∙◌, Bool, true, false, List, [], ◌∷◌, Bytes,
  Option, none, some, if◌then◌else◌,
}
use dbslayer.Plotr.Number.{Number}
use dbslayer.Plotr.Chart.{Chart, init_canvas}
use dbslayer.Plotr.Canvas.{Command}
use dbslayer.Plotr.Vml.{
  Element, by_id, id_of, Options, Kind, Document, Waiting, Outcome, done, thrown, out_of_fuel,
  then_do, init_waiting, ie_wait, with_canvas,
}
use dbslayer.Plotr.Vml.Render.{
  show, draw_chart, with_drawing, next_request, first_of, render_waiting, unless_waiting, evaluated,
  moved,
}

module _ (num : Number) where
  abbrev Returns : Outcome num → Type 0
  Returns (done w) = Unit
  Returns thrown = Unit
  Returns out_of_fuel = ⊥

  Returns-then_do :
      (x : Outcome num) (f : Waiting num → Outcome num)
      → Returns x
      → ((v : Waiting num) → Returns (f v))
      → Returns (then_do num x f)
  Returns-then_do (done w) f h k = k w
  Returns-then_do thrown f h k = tt
  Returns-then_do out_of_fuel f h k = h

  with_drawing-Returns :
      (w : Waiting num) (cs : Option (List (Command num))) → Returns (with_drawing num w cs)
  with_drawing-Returns w none = tt
  with_drawing-Returns w (some cs) = tt

  module _ (kind : Kind num) (doc : Document num) where
    -- behind the drawing on a canvas that was named, the loop makes no round
    drawing_settles :
        (f : Bytes → Options num → Waiting num → Outcome num) (w : Waiting num)
        (cs : Option (List (Command num)))
        → ((ds : List (List (Command num)))
            → next_request num f (record w { drawn = ds }) ≡ done (record w { drawn = ds }))
        → then_do num (with_drawing num w cs) (next_request num f) ≡ with_drawing num w cs
    drawing_settles f w none k = refl
    drawing_settles f w (some cs) k = k (cs ∷ w.drawn)

    canvas_settles :
        (f : Bytes → Options num → Waiting num → Outcome num) (ie : Bool) (id : Bytes)
        (w : Waiting num) (c : Option (Chart num))
        → then_do num
            (then_do num (with_canvas num ie id w c) (draw_chart num kind))
            (next_request num f)
          ≡ then_do num (with_canvas num ie id w c) (draw_chart num kind)
    canvas_settles f ie id w none = refl
    canvas_settles f true id w (some c) = drawing_settles f _ _ (λ ds. refl)
    canvas_settles f false id w (some c) = drawing_settles f _ _ (λ ds. refl)

    show_settles :
        (f : Bytes → Options num → Waiting num → Outcome num) (e : Element) (o : Options num)
        (w : Waiting num)
        → then_do num (show num kind doc (some e) o w) (next_request num f)
          ≡ show num kind doc (some e) o w
    unfolding show init_waiting
    show_settles f e o w = evaluated_lem (kind.evaluate o w.chart)
      where
        evaluated_lem :
            (c : Option (Chart num))
            → then_do num
                (then_do num
                  (then_do num (evaluated num w c) (moved num doc (some e)))
                  (draw_chart num kind))
                (next_request num f)
              ≡ then_do num
                  (then_do num (evaluated num w c) (moved num doc (some e)))
                  (draw_chart num kind)
        evaluated_lem none = refl
        evaluated_lem (some c) =
            canvas_settles f (doc.page_of (id_of e)).is_ie (id_of e) (record w { chart = c })
              (init_canvas num (doc.page_of (id_of e)) c)

    render_named :
        (n : ℕ) (ready : Bytes → Bool) (e : Element) (o : Options num) (w : Waiting num)
        → render_waiting num (suc n) kind doc ready (some e) o w
          ≡ render_waiting num 1 kind doc ready (some e) o w
    unfolding render_waiting
    render_named n ready e o w =
        ap (unless_waiting num (if w.is_ie then ie_wait num doc ready (some e) o w else (false, w)))
          (fun_ext (λ v. show_settles _ e o v ∙ sym (show_settles _ e o v)))

    show-Returns :
        (e : Option Element) (o : Options num) (w : Waiting num) → Returns (show num kind doc e o w)
    unfolding show init_waiting
    show-Returns e o w =
        Returns-then_do _ _
          (Returns-then_do _ _ (evaluated_lem (kind.evaluate o w.chart)) (moved_lem e))
          (λ v. with_drawing-Returns v _)
      where
        evaluated_lem : (c : Option (Chart num)) → Returns (evaluated num w c)
        evaluated_lem none = tt
        evaluated_lem (some c) = tt

        canvas_lem :
            (ie : Bool) (id : Bytes) (v : Waiting num) (c : Option (Chart num))
            → Returns (with_canvas num ie id v c)
        canvas_lem ie id v none = tt
        canvas_lem ie id v (some c) = tt

        moved_lem : (e : Option Element) (v : Waiting num) → Returns (moved num doc e v)
        moved_lem none v = tt
        moved_lem (some e) v = canvas_lem _ _ v _

    unless_waiting-Returns :
        (bw : Bool × Waiting num) (f : Waiting num → Outcome num)
        → ((v : Waiting num) → Returns (f v))
        → Returns (unless_waiting num bw f)
    unless_waiting-Returns (true, w) f h = tt
    unless_waiting-Returns (false, w) f h = h w

    named-Returns :
        (ready : Bytes → Bool) (id : Bytes) (o : Options num) (w : Waiting num)
        → Returns (render_waiting num 1 kind doc ready (some (by_id id)) o w)
    unfolding render_waiting
    named-Returns ready id o w = unless_waiting-Returns _ _ (λ v.
        subst Returns (sym (show_settles _ (by_id id) o v)) (show-Returns (some (by_id id)) o v))

    next_request-Returns :
        (f : Bytes → Options num → Waiting num → Outcome num) (w : Waiting num)
        → ((id : Bytes) (o : Options num) (v : Waiting num) → Returns (f id o v))
        → Returns (next_request num f w)
    next_request-Returns f w h = choose_lem w.is_ie w.render_stack
      where
        choose_lem :
            (ie : Bool) (s : List (Bytes × Options num))
            → Returns (if ie then first_of num f w s else done w)
        choose_lem false s = tt
        choose_lem true [] = tt
        choose_lem true ((id, o) ∷ s) = h id o w

    -- `render` calls itself at most once more, whatever is ready and whatever waits in the stack: two
    -- rounds of fuel give an outcome, and more fuel gives the same one.
    pub render_waiting-fuel :
        (n : ℕ) (ready : Bytes → Bool) (e : Option Element) (o : Options num) (w : Waiting num)
        → (render_waiting num (suc (suc n)) kind doc ready e o w
            ≡ render_waiting num 2 kind doc ready e o w)
          × (render_waiting num 2 kind doc ready e o w ≢ out_of_fuel)
    unfolding render_waiting
    render_waiting-fuel n ready e o w =
        let wait : Bool × Waiting num =
          if w.is_ie then ie_wait num doc ready e o w else (false, w) in
        let again : Bytes → Options num → Waiting num → Outcome num =
          λ id. render_waiting num 1 kind doc ready (some (by_id id)) in
        let rounds =
          ap
            (λ (f : Bytes → Options num → Waiting num → Outcome num).
              unless_waiting num wait
                (λ v. then_do num (show num kind doc e o v) (next_request num f)))
            (fun_ext (λ id. fun_ext (λ p. fun_ext (λ v. render_named n ready (by_id id) p v)))) in
        let back = unless_waiting-Returns wait _ (λ v.
          Returns-then_do _ _ (show-Returns e o v)
            (λ u. next_request-Returns again u (named-Returns ready))) in
        (rounds, λ q. subst Returns q back)
