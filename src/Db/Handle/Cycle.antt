-- ===== src/Db/Handle/Cycle.antt =====
-- db/dbaccess.c: the order in which `db_handle_reattach` tries the servers.
use dbslayer.Prelude.{
  ℕ, zero, suc, ◌+◌, ◌≤◌, ◌<◌, true, false, List, [], ◌∷◌, ◌++◌, Bytes, ◌==◌, if◌then◌else◌, length,
  take, drop, get_or, length-append, ◌≡◌, refl, sym, ap, ap₂, fun_ext, append_assoc, append-nil,
  ◌∙◌, none, arith,
}
use dbslayer.Db.Handle.{
  Client, State, Attached, attempt, attempts, or_next, or_second, reattach_any, db_handle_reattach,
  reattach_in,
}

or_second-or_next :
    (ct : ℕ) (tried : Attached) (first next : State → Attached)
    → or_second (or_next ct tried first) next ≡ or_next ct tried (λ s. or_second (first s) next)
or_second-or_next ct (true, s) first next = refl
or_second-or_next ct (false, s) first next = refl

or_second-false : (tried : Attached) → or_second tried (λ s. (false, s)) ≡ tried
or_second-false (true, s) = refl
or_second-false (false, s) = refl

get_or-length :
    (before after : List Bytes) (group : Bytes)
    → get_or (before ++ (group ∷ after)) (length before) [] ≡ group
get_or-length [] after group = refl
get_or-length (x ∷ xs) after group = get_or-length xs after group

take-drop : (n : ℕ) (xs : List Bytes) → take n xs ++ drop n xs ≡ xs
take-drop zero xs = refl
take-drop (suc n) [] = refl
take-drop (suc n) (x ∷ xs) = ap (λ l. x ∷ l) (take-drop n xs)

length-take : (n : ℕ) (xs : List Bytes) → n ≤ length xs → length (take n xs) ≡ n
length-take zero xs h = refl
length-take (suc n) [] h = absurd (omega (arith, h))
length-take (suc n) (x ∷ xs) h = ap suc (length-take n xs (omega (arith, h)))

module _ (client : Client) (server : List Bytes) where
  -- the number behind the last server is the first
  abbrev wrapped : ℕ → ℕ
  wrapped ct = if ct == length server then 0 else ct

  -- `n` servers in turn, from number `ct` on and round
  unfoldable pub in_turn : ℕ → ℕ → State → Attached
  in_turn zero ct s = (false, s)
  in_turn (suc n) ct s =
      or_next ct (attempt client (get_or server ct []) s) (in_turn n (wrapped (suc ct)))

  run_lem :
      (before groups after : List Bytes) (ct c n m : ℕ) (s : State)
      → before ++ (groups ++ after) ≡ server
      → ct ≡ length before
      → c ≡ wrapped (ct + length groups)
      → m ≡ length groups + n
      → or_second (attempts client ct groups s) (in_turn n c) ≡ in_turn m (wrapped ct) s
  unfolding attempts in_turn
  run_lem before [] after ct c n m s e l w q =
      let count : n ≡ m = omega (arith, q) in
      ap₂ (λ x y. in_turn x y s) count (w ∙ ap wrapped (omega arith))
  run_lem before (group ∷ groups) after ct c n zero s e l w q = absurd (omega (arith, q))
  run_lem before (group ∷ groups) after ct c n (suc m) s e l w q =
      let size : length before + suc (length (groups ++ after)) ≡ length server =
        sym (length-append before (group ∷ (groups ++ after))) ∙ ap length e in
      let here : wrapped ct ≡ ct = ground (arith, size, l) in
      let found : get_or server ct [] ≡ group =
        ap₂ (λ servers i. get_or servers i []) (sym e) l
        ∙ get_or-length before (groups ++ after) group in
      let rest = λ (t : State).
        run_lem (before ++ group ∷ []) groups after (suc ct) c n m t
          (append_assoc before (group ∷ []) (groups ++ after) ∙ e)
          (ap suc l ∙ omega (arith, length-append before (group ∷ [])))
          (w ∙ ap wrapped (omega arith)) (omega (arith, q)) in
      or_second-or_next ct (attempt client group s) (attempts client (suc ct) groups) (in_turn n c)
      ∙ ap (or_next ct (attempt client group s)) (fun_ext rest)
      ∙ ap (λ g. or_next ct (attempt client g s) (in_turn m (wrapped (suc ct)))) (sym found)
      ∙ ap (λ i. or_next i (attempt client (get_or server i []) s) (in_turn m (wrapped (suc i))))
          (sym here)

  two_loops :
      (offset : ℕ) (s : State)
      → offset < length server
      → or_second
          (attempts client offset (drop offset server) s)
          (attempts client 0 (take offset server))
        ≡ in_turn (length server) offset s
  unfolding in_turn
  two_loops offset s h =
      let size =
        length-append (take offset server) (drop offset server)
        ∙ ap (λ n. n + length (drop offset server))
            (length-take offset server (omega (arith, h))) in
      let all = ap length (take-drop offset server) in
      let second = λ (t : State).
        sym (or_second-false (attempts client 0 (take offset server) t))
        ∙ run_lem [] (take offset server) (drop offset server) 0 (wrapped offset) 0 offset t
            (take-drop offset server) refl
            (ap wrapped (omega (arith, length-take offset server (omega (arith, h)))))
            (sym (length-take offset server (omega (arith, h))) ∙ omega arith) in
      let first =
        run_lem (take offset server) (drop offset server) [] offset (wrapped 0) offset
          (length server) s
          (ap (λ l. take offset server ++ l) (append-nil (drop offset server))
            ∙ take-drop offset server)
          (sym (length-take offset server (omega (arith, h)))) (ground (arith, size, all))
          (omega (arith, size, all)) in
      ap (or_second (attempts client offset (drop offset server) s)) (fun_ext second)
      ∙ first
      ∙ ap (λ ct. in_turn (length server) ct s) (ground (arith, h))

-- Without named servers, and with a `server_offset` in the list, db_handle_reattach is one search that begins with the server of `server_offset` and
-- goes round the list once: it tries each server at most once, and returns the handle at the first that MySQL
-- connects to, whose number is then the new `server_offset`.
pub db_handle_reattach-in_turn :
    (client : Client) (name : Bytes) (s : State)
    → s.db_handle.dblookup ≡ none
    → s.db_handle.server_offset < length s.db_handle.server
    → db_handle_reattach client name s
      ≡ in_turn client s.db_handle.server (length s.db_handle.server) s.db_handle.server_offset s
unfolding db_handle_reattach reattach_any
db_handle_reattach-in_turn client name s u h =
    ap (λ l. reattach_in client l name s) u
    ∙ two_loops client s.db_handle.server s.db_handle.server_offset s h
