-- ===== src/Plotr/Bar/Leak.antt =====
-- The drawing of a bar chart: each thin bar leaves a state saved.
use dbslayer.Prelude.{
  ℕ, suc, ◌+◌, ◌≡◌, refl, sym, ap, ◌∙◌, Bool, true, false, List, [], ◌∷◌, ◌++◌, append_assoc,
  append-nil, arith, Bytes, bytes_eq, some, if◌then◌else◌,
}
use dbslayer.Plotr.Number.{Number}
use dbslayer.Plotr.Chart.{Chart, Bar}
use dbslayer.Plotr.Canvas.{Command, fill_rect, stroke_rect}
use dbslayer.Plotr.Canvas.Balance.{Balanced, Balanced-nil, both_lem, depth_after}
use dbslayer.Plotr.Line.Draw.{each_set, store_names}
use dbslayer.Plotr.Bar.Draw.{is_thin, bar_start, bar_rects, rect_if, set_bars, render_bar_chart}

module _ (num : Number) where
  -- the thin bars of the set `name`
  abbrev pub thin_of : Chart num → Bytes → List (Bar num) → ℕ
  thin_of c name [] = 0
  thin_of c name (b ∷ bs) =
      if bytes_eq b.name name
      then if is_thin num c b then suc (thin_of c name bs) else thin_of c name bs
      else thin_of c name bs

  abbrev pub thin_of_all : Chart num → List Bytes → ℕ
  thin_of_all c [] = 0
  thin_of_all c (n ∷ ns) = thin_of_all c ns + thin_of c n c.bars

  rect_if-Balanced :
      (b : Bool) (command : Command num)
      → Balanced num (command ∷ [])
      → Balanced num (rect_if num b command)
  rect_if-Balanced true command h = h
  rect_if-Balanced false command h = Balanced-nil num

  rects_lem :
      (c : Chart num) (b : Bar num) (rest : List (Command num)) (d : ℕ)
      → depth_after num (bar_rects num c b ++ rest) (suc d) ≡ depth_after num rest d
  unfolding Balanced depth_after
  rects_lem c b rest d =
      both_lem num (rect_if num c.options.should_fill (fill_rect _ _ _ _))
        (rect_if num c.options.should_stroke (stroke_rect _ _ _ _))
        (rect_if-Balanced _ _ (λ rest d. refl)) (rect_if-Balanced _ _ (λ rest d. refl)) rest d

  bar_lem :
      (c : Chart num) (index : ℕ) (b : Bar num) (thin mine : Bool) (more : ℕ)
      (others rest : List (Command num)) (d : ℕ)
      → ((e : ℕ) → depth_after num (others ++ rest) e ≡ depth_after num rest (more + e))
      → depth_after num
          ((if mine
              then (bar_start num c index ++ (if thin then [] else bar_rects num c b)) ++ others
              else others)
            ++ rest)
          d
        ≡ depth_after num rest ((if mine then if thin then suc more else more else more) + d)
  unfolding depth_after
  bar_lem c index b thin false more others rest d h = h d
  bar_lem c index b true true more others rest d h =
      h (suc d) ∙ ap (depth_after num rest) (omega arith)
  bar_lem c index b false true more others rest d h =
      ap (λ cs. depth_after num cs (suc d)) (append_assoc (bar_rects num c b) others rest)
      ∙ rects_lem c b (others ++ rest) d
      ∙ h d

  set_bars_lem :
      (c : Chart num) (index : ℕ) (name : Bytes) (bs : List (Bar num)) (rest : List (Command num))
      (d : ℕ)
      → depth_after num (set_bars num c index name bs ++ rest) d
        ≡ depth_after num rest (thin_of c name bs + d)
  unfolding set_bars
  set_bars_lem c index name [] rest d = ap (depth_after num rest) (omega arith)
  set_bars_lem c index name (b ∷ bs) rest d =
      bar_lem c index b (is_thin num c b) (bytes_eq b.name name) (thin_of c name bs)
        (set_bars num c index name bs) rest d (λ e. set_bars_lem c index name bs rest e)

  each_lem :
      (c : Chart num) (index : ℕ) (names : List Bytes) (rest : List (Command num)) (d : ℕ)
      → depth_after num
          (each_set num (λ i name. set_bars num c i name c.bars) index names ++ rest)
          d
        ≡ depth_after num rest (thin_of_all c names + d)
  unfolding each_set
  each_lem c index [] rest d = ap (depth_after num rest) (omega arith)
  each_lem c index (n ∷ ns) rest d =
      ap (λ cs. depth_after num cs d) (append_assoc (set_bars num c index n c.bars) _ rest)
      ∙ set_bars_lem c index n c.bars _ d
      ∙ each_lem c (index + 1) ns rest _
      ∙ ap (depth_after num rest) (omega arith)

  -- The commands that draw a bar chart restore nothing that was saved before, and leave one state
  -- saved for each bar that is less than one pixel wide or high, counted once for every occurrence of
  -- its set's name in the loop over the data sets; without such bars they leave none.
  pub depth_after-render_bar_chart :
      (inherited : List Bytes) (c : Chart num) (d : ℕ)
      → depth_after num (render_bar_chart num inherited c) d
        ≡ some (thin_of_all c (store_names num inherited c) + d)
  unfolding render_bar_chart depth_after
  depth_after-render_bar_chart inherited c d =
      ap (λ cs. depth_after num cs d)
        (sym (
          append-nil (
            each_set num (λ i name. set_bars num c i name c.bars) 0 (store_names num inherited c))))
      ∙ each_lem c 0 (store_names num inherited c) [] d
