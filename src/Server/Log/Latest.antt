-- ===== src/Server/Log/Latest.antt =====
-- What `slayer_server_log_get_entries` prints: the latest entries, oldest first.
use dbslayer.Prelude.{
  take_all, take-drop-suc, length-drop, ℕ, zero, suc, ◌+◌, ◌-◌, ◌≤◌, ◌<◌, ◌≡◌, ◌≢◌, refl, sym, ap,
  ap₂, subst, ◌∙◌, List, [], ◌∷◌, ◌++◌, append_assoc, append-nil, Bytes, bytes_eq, codes, map,
  length, replicate, take, drop, get_or, Option, none, some, arith, length-append, All,
}
use dbslayer.Server.Log.{Log, log_open, log_add, log_all, append_entry, entries_loop, get_entries}
use dbslayer.Server.Log.Ring.{contents, contents-log_add}

-- the loop as a fold
abbrev printed : Bytes → List (Option Bytes) → Bytes
printed text [] = text
printed text (e ∷ es) = printed (append_entry text e) es

printed-append :
    (text : Bytes) (xs ys : List (Option Bytes))
    → printed text (xs ++ ys) ≡ printed (printed text xs) ys
printed-append text [] ys = refl
printed-append text (x ∷ xs) ys = printed-append (append_entry text x) xs ys

loop_lem :
    (n i : ℕ) (xs : List (Option Bytes)) (text : Bytes)
    → i + n ≤ length xs
    → entries_loop n i xs text ≡ printed text (take n (drop i xs))
unfolding entries_loop
loop_lem zero i xs text h = refl
loop_lem (suc n) i xs text h =
    loop_lem n (suc i) xs (append_entry text (get_or xs i none)) (omega (arith, h))
    ∙ ap (printed text) (sym (take-drop-suc n i xs none (omega (arith, h))))

-- The text is made of the entries in the order of the ring.
get_entries_lem :
    (log : Log)
    → log.offset < length log.entries
    → get_entries log ≡ printed (codes "[") (contents log) ++ codes "]"
unfolding get_entries
get_entries_lem log h =
    let es = log.entries in
    let o = suc log.offset in
    ap (λ text. entries_loop o 0 es text ++ codes "]")
      (loop_lem (length es - o) o es (codes "[") (omega (arith, h))
        ∙ ap (printed (codes "["))
            (take_all (drop o es) (length es - o) (ground (arith, length-drop o es))))
    ∙ ap (λ text. text ++ codes "]")
        (loop_lem o 0 es _ (omega (arith, h))
          ∙ sym (printed-append (codes "[") (drop o es) (take o es)))

-- the entries behind a separator each
abbrev tail_joined : List Bytes → Bytes
tail_joined [] = []
tail_joined (e ∷ es) = codes "," ++ e ++ tail_joined es

abbrev pub joined : List Bytes → Bytes
joined [] = []
joined (e ∷ es) = e ++ tail_joined es

-- a text that is longer than "[" gets a comma before each entry
more_lem :
    (c : ℕ) (text : Bytes) (es : List Bytes)
    → printed (b'[' ∷ c ∷ text) (map some es) ≡ (b'[' ∷ c ∷ text) ++ tail_joined es
unfolding append_entry bytes_eq
more_lem c text [] = sym (append-nil (b'[' ∷ c ∷ text))
more_lem c text (e ∷ es) =
    more_lem c (text ++ (b',' ∷ e)) es
    ∙ ap (λ t. b'[' ∷ c ∷ t) (append_assoc text (b',' ∷ e) (tail_joined es))

printed_lem :
    (es : List Bytes)
    → All (λ e. e ≢ []) es
    → printed (codes "[") (map some es) ≡ codes "[" ++ joined es
unfolding append_entry bytes_eq
printed_lem [] h = refl
printed_lem ([] ∷ es) (p, h) = absurd (p refl)
printed_lem ((c ∷ e) ∷ es) (p, h) = more_lem c e es

printed-none :
    (n : ℕ) (text : Bytes) (es : List (Option Bytes))
    → printed text (replicate n none ++ es) ≡ printed text es
unfolding append_entry
printed-none zero text es = refl
printed-none (suc n) text es = printed-none n text es

drop-map : (k : ℕ) (es : List Bytes) → drop k (map some es) ≡ map some (drop k es)
drop-map zero es = refl
drop-map (suc k) [] = refl
drop-map (suc k) (e ∷ es) = drop-map k es

abbrev window : ℕ → ℕ → List Bytes → List (Option Bytes)
window empty skipped es = replicate empty none ++ map some (drop skipped es)

window_eq : (m m' k k' : ℕ) (es : List Bytes) → m ≡ m' → k ≡ k' → window m k es ≡ window m' k' es
window_eq m m' k k' es p q = ap₂ (λ a b. window a b es) p q

All-drop : (k : ℕ) (es : List Bytes) → All (λ e. e ≢ []) es → All (λ e. e ≢ []) (drop k es)
All-drop zero es h = h
All-drop (suc k) [] h = tt
All-drop (suc k) (e ∷ es) h = All-drop k es h.1

-- what is left of the empty slots and the entries when `k` of them are dropped
drop-window :
    (k n : ℕ) (es : List Bytes)
    → drop k (replicate n none ++ map some es) ≡ window (n - k) (k - n) es
drop-window zero n es = window_eq n (n - 0) 0 (0 - n) es (omega arith) (omega arith)
drop-window (suc k) zero es =
    drop-map (suc k) es ∙ window_eq 0 (0 - suc k) (suc k) (suc k - 0) es (omega arith) (omega arith)
drop-window (suc k) (suc n) es =
    drop-window k n es
    ∙ window_eq (n - k) (suc n - suc k) (k - n) (suc k - suc n) es (omega arith) (omega arith)

drop_one :
    (k : ℕ) (xs : List (Option Bytes)) (x : Option Bytes)
    → k < length xs
    → drop 1 (drop k xs) ++ x ∷ [] ≡ drop (suc k) (xs ++ x ∷ [])
drop_one k [] x h = absurd (omega (arith, h))
drop_one zero (y ∷ ys) x h = refl
drop_one (suc k) (y ∷ ys) x h = drop_one k ys x (omega (arith, h))

-- a ring that holds the list `xs` but for its first `k` elements
record Holds (log : Log) (k : ℕ) (xs : List (Option Bytes)) : Type 0 where
  in_ring : log.offset < length log.entries
  length_eq : k + length log.entries ≡ length xs
  contents_eq : contents log ≡ drop k xs

Holds-log_add :
    (entry : Bytes) (log : Log) (k : ℕ) (xs : List (Option Bytes))
    → Holds log k xs
    → Holds (log_add entry log) (suc k) (xs ++ some entry ∷ [])
Holds-log_add entry log k xs h =
    let added = contents-log_add entry log h.in_ring in
    record {
      in_ring = added.1;
      length_eq =
          ap (λ n. suc k + n) added.2
          ∙ omega (arith, h.length_eq)
          ∙ sym (length-append xs (some entry ∷ []));
      contents_eq =
          added.0
          ∙ ap (λ ys. drop 1 ys ++ some entry ∷ []) h.contents_eq
          ∙ drop_one k xs (some entry) (omega (arith, h.length_eq, h.in_ring));
    }

Holds-log_all :
    (es : List Bytes) (log : Log) (k : ℕ) (xs : List (Option Bytes))
    → Holds log k xs
    → Holds (log_all es log) (length es + k) (xs ++ map some es)
Holds-log_all [] log k xs h =
    subst (λ n. Holds log n (xs ++ [])) (omega arith)
      (subst (λ ys. Holds log k ys) (sym (append-nil xs)) h)
Holds-log_all (e ∷ es) log k xs h =
    subst (λ n. Holds (log_all (e ∷ es) log) n (xs ++ map some (e ∷ es))) (omega arith)
      (subst (λ ys. Holds (log_all (e ∷ es) log) (length es + suc k) ys)
        (append_assoc xs (some e ∷ []) (map some es))
        (Holds-log_all es (log_add e log) (suc k) (xs ++ some e ∷ []) (Holds-log_add e log k xs h)))

replicate_snoc :
    (n : ℕ) → replicate {A = Option Bytes} n none ++ none ∷ [] ≡ none ∷ replicate n none
replicate_snoc zero = refl
replicate_snoc (suc n) = ap (λ ys. none ∷ ys) (replicate_snoc n)

length-replicate : (n : ℕ) → length (replicate {A = Option Bytes} n none) ≡ n
length-replicate zero = refl
length-replicate (suc n) = ap suc (length-replicate n)

open-Holds : (n : ℕ) → Holds (log_open (suc n)) 0 (replicate (suc n) none)
open-Holds n = record {
  in_ring = omega arith;
  length_eq = omega arith;
  contents_eq = replicate_snoc n;
}

-- After any number of requests and errors, a log of `n` entries, at least one, prints the latest `n` of
-- them in their order, or all of them when there are fewer, as a JSON array; no entry text is empty.
pub get_entries-log_all :
    (n : ℕ) (es : List Bytes)
    → 1 ≤ n
    → All (λ e. e ≢ []) es
    → get_entries (log_all es (log_open n))
      ≡ codes "[" ++ joined (drop (length es - n) es) ++ codes "]"
get_entries-log_all zero es h a = absurd (omega (arith, h))
get_entries-log_all (suc n) es h a =
    let held = Holds-log_all es (log_open (suc n)) 0 (replicate (suc n) none) (open-Holds n) in
    get_entries_lem (log_all es (log_open (suc n))) held.in_ring
    ∙ ap (λ ys. printed (codes "[") ys ++ codes "]")
        (held.contents_eq ∙ drop-window (length es + 0) (suc n) es)
    ∙ ap (λ text. text ++ codes "]")
        (printed-none (suc n - (length es + 0)) (codes "[") _
          ∙ printed_lem (drop (length es + 0 - suc n) es) (All-drop _ es a)
          ∙ ap (λ k. codes "[" ++ joined (drop k es)) (omega arith))
