-- ===== src/Server/Stats.antt =====
-- common/slayer_server_stats.c: the hits of the latest time slices, in a ring. The clock is an argument;
-- `nslice` is the length of the two arrays, and `tslice` only tells the timer how long to sleep.
-- The two loops read the arrays without the mutex; a report stands here between two events.
pub mod Ring
pub mod Rows
pub mod Run
pub mod Latest
use dbslayer.Prelude.{
  ℕ, zero, suc, ◌+◌, ◌-◌, ◌%◌, ◌^◌, List, [], ◌∷◌, ◌++◌, length, replicate, set, get_or, ◌==◌,
  if◌then◌else◌,
}

-- an `int` that counts up, as its 32 bits
abbrev pub count_up : ℕ → ℕ
count_up n = (n + 1) % 2 ^ 32

pub record Stats : Type 0 where
  pub hits : List ℕ
  pub slices : List ℕ
  pub start_time : ℕ
  pub total_requests : ℕ
  pub offset : ℕ

-- one slot more than the caller asks for
unfoldable pub stat_init : ℕ → ℕ → Stats
stat_init nslice now = record {
  hits = replicate (suc nslice) 0;
  slices = set (replicate (suc nslice) 0) 0 now;
  start_time = now;
  total_requests = 0;
  offset = 0;
}

unfoldable pub stat_update : Stats → Stats
stat_update stats = record {
  hits = set stats.hits stats.offset (count_up (get_or stats.hits stats.offset 0));
  slices = stats.slices;
  start_time = stats.start_time;
  total_requests = count_up stats.total_requests;
  offset = stats.offset;
}

abbrev pub next_slice : ℕ → ℕ → ℕ
next_slice offset nslice = if suc offset == nslice then 0 else suc offset

unfoldable pub stats_tick : ℕ → Stats → Stats
stats_tick now stats =
    let offset = next_slice stats.offset (length stats.hits) in
    record {
      hits = set stats.hits offset 0;
      slices = set stats.slices offset now;
      start_time = stats.start_time;
      total_requests = stats.total_requests;
      offset = offset;
    }

-- the two arrays of the JSON text
abbrev pub Shown : Type 0
Shown = List ℕ × List ℕ

-- one round of the two loops
unfoldable pub show_slice : ℕ → ℕ → Shown → Shown
show_slice hit slice (hits, slices) =
    if slice == 0 then (hits, slices) else (hits ++ hit ∷ [], slices ++ slice ∷ [])

-- the rounds from index `i` on, `n` of them
unfoldable pub shown_loop : ℕ → ℕ → Stats → Shown → Shown
shown_loop zero i stats shown = shown
shown_loop (suc n) i stats shown =
    shown_loop n (suc i) stats (show_slice (get_or stats.hits i 0) (get_or stats.slices i 0) shown)

-- the object that `json_serialize` prints
pub record Report : Type 0 where
  pub total_requests : ℕ
  pub hits : List ℕ
  pub slices : List ℕ
  pub start_time : ℕ
  pub current_time : ℕ

unfoldable pub stats_tojson : ℕ → Stats → Report
stats_tojson now stats =
    let rounds = length stats.hits - suc stats.offset in
    let shown =
      shown_loop stats.offset 0 stats (shown_loop rounds (suc stats.offset) stats ([], [])) in
    record {
      total_requests = stats.total_requests;
      hits = shown.0;
      slices = shown.1;
      start_time = stats.start_time;
      current_time = now;
    }

-- what the threads do between two reports
pub data Event : Type 0 where
  request : Event
  tick : (now : ℕ) → Event

abbrev pub run : List Event → Stats → Stats
run [] stats = stats
run (request ∷ es) stats = run es (stat_update stats)
run (tick now ∷ es) stats = run es (stats_tick now stats)
