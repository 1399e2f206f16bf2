-- ===== src/Json/Skip.antt =====
-- common/json_skip.c: a skip list with all its levels. A node is its number, with the key and the data that
-- `json_skip_node_create` gives it; the head has number 0. `next_list` gives for a level and a number the
-- node that the pointer stands for, `none` for NULL. `rand` is an argument. A loop over the nodes of a level
-- has a round for each node.
pub mod Levels
pub mod Puts
pub mod Search
pub mod Kept
pub mod Refines
mod Tests
use dbslayer.Prelude.{
  ℕ, zero, suc, ◌-◌, ◌/◌, ◌%◌, Bool, true, false, List, [], ◌∷◌, Bytes, bytes_eq, ◌==◌,
  if◌then◌else◌, Option, none, some,
}
use dbslayer.Json.Value.{Value, bytes_lt}

pub record Node : Type 0 where
  pub id : ℕ
  pub key : Bytes
  pub value : Value

abbrev pub NextList : Type 0
NextList = ℕ → ℕ → Option Node

pub record Skip : Type 0 where
  pub height : ℕ
  pub node_count : ℕ
  pub next_list : NextList

abbrev pub json_skip_create : ℕ → Skip
json_skip_create height = record { height = height; node_count = 0; next_list = λ h n. none }

-- a round of the `while`: on from a node with a smaller key
abbrev pub step_from : Bytes → ℕ → Option Node → (ℕ → ℕ) → ℕ
step_from key mark none next = mark
step_from key mark (some n) next = if bytes_lt n.key key then next n.id else mark

unfoldable pub walk : ℕ → NextList → ℕ → Bytes → ℕ → ℕ
walk zero next_list h key mark = mark
walk (suc fuel) next_list h key mark =
    step_from key mark (next_list h mark) (walk fuel next_list h key)

-- `mark` behind the levels below `height`
unfoldable pub descend : ℕ → Skip → Bytes → ℕ → ℕ
unfolding walk
descend zero s key mark = mark
descend (suc h) s key mark = descend h s key (walk s.node_count s.next_list h key mark)

-- `fix`, for the levels below `height`
unfoldable pub fix_at : ℕ → Skip → Bytes → ℕ → ℕ → ℕ
unfolding walk
fix_at zero s key mark l = mark
fix_at (suc h) s key mark l =
    let m = walk s.node_count s.next_list h key mark in
    let below = fix_at h s key m l in if l == h then m else below

unfoldable pub json_skip_find : Skip → Bytes → Option Node
unfolding descend
json_skip_find s key = s.next_list 0 (descend s.height s key 0)

abbrev pub data_if : Bytes → Option Node → Option Value
data_if key none = none
data_if key (some n) = if bytes_eq key n.key then some n.value else none

-- the same search, and the test of the key
unfoldable pub json_skip_get : Skip → Bytes → Option Value
unfolding json_skip_find
json_skip_get s key = data_if key (json_skip_find s key)

-- the height of a fresh node, at most `n` more than 1
unfoldable pub height_more : ℕ → ℕ → ℕ
height_more zero r = 0
height_more (suc n) r = let more = height_more n (r / 2) in if r % 2 == 1 then suc more else 0

abbrev pub node_height : ℕ → ℕ → ℕ
node_height height r = suc (height_more (height - 1) r)

-- the fresh node takes the pointer, and stands in its place
abbrev pub put_behind : ℕ → ℕ → Node → NextList → NextList
put_behind h mark fresh next_list l n =
    if l == h
    then if n == fresh.id then next_list h mark else if n == mark then some fresh else next_list l n
    else next_list l n

unfoldable pub link : ℕ → (ℕ → ℕ) → Node → NextList → NextList
link zero fix fresh next_list = next_list
link (suc h) fix fresh next_list = link h fix fresh (put_behind h (fix h) fresh next_list)

unfoldable pub json_skip_put : ℕ → Bytes → Value → Skip → Skip
unfolding fix_at height_more link
json_skip_put r key value s =
    let fresh : Node = record { id = suc s.node_count; key = key; value = value } in
    record s {
      node_count = suc s.node_count;
      next_list = link (node_height s.height r) (fix_at s.height s key 0) fresh s.next_list;
    }

-- another value for a node, wherever a pointer stands for it
abbrev pub with_value : ℕ → Value → Option Node → Option Node
with_value id value none = none
with_value id value (some n) = some (if n.id == id then record n { value = value } else n)

abbrev pub replace_at : Option Node → ℕ → Bytes → Value → Skip → Skip
replace_at none r key value s = json_skip_put r key value s
replace_at (some n) r key value s =
    if bytes_eq key n.key
    then record s { next_list = λ h m. with_value n.id value (s.next_list h m) }
    else json_skip_put r key value s

unfoldable pub json_skip_replace : ℕ → Bytes → Value → Skip → Skip
unfolding json_skip_find json_skip_put
json_skip_replace r key value s = replace_at (json_skip_find s key) r key value s
