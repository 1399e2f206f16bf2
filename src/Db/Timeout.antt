-- ===== src/Db/Timeout.antt =====
-- db/dbaccess.c: `db_query_timeout_seconds`, of the text of DBSLAYER_QUERY_TIMEOUT (`none` when it is not set).
use dbslayer.Prelude.{
  ℕ, ◌-◌, ◌%◌, ◌^◌, ◌≤◌, ◌<◌, Bool, true, false, ◌||◌, [], ◌∷◌, Bytes, codes, ltb, leb, ◌==◌,
  if◌then◌else◌, Option, none, some, ◌≡◌, refl, arith,
}
use dbslayer.Json.Scan.{skip_space, read_digits}

-- the number that `strtoul` reads, with the text behind it: another byte there, a number out of range and 0 give
-- 30, and what is above UINT_MAX too; `strtoul` negates modulo the word
unfoldable pub timeout_of : Bool → ℕ × Bytes → ℕ
timeout_of negative (n, c ∷ cs) = 30
timeout_of negative (n, []) =
    let timeout = if negative then (2 ^ 64 - n) % 2 ^ 64 else n in
    if leb (2 ^ 64) n || timeout == 0 || ltb (2 ^ 32 - 1) timeout then 30 else timeout

-- the sign
unfoldable pub strtoul_timeout : Bytes → ℕ
unfolding timeout_of
strtoul_timeout [] = 30
strtoul_timeout (c ∷ cs) =
    if c == b'-'
    then timeout_of true (read_digits 0 cs)
    else timeout_of false (read_digits 0 (if c == b'+' then cs else c ∷ cs))

unfoldable pub db_query_timeout_seconds : Option Bytes → ℕ
unfolding strtoul_timeout
db_query_timeout_seconds none = 30
db_query_timeout_seconds (some []) = 30
db_query_timeout_seconds (some (c ∷ cs)) = strtoul_timeout (skip_space (c ∷ cs))

abbrev IsTimeout : ℕ → Type 0
IsTimeout t = (1 ≤ t) × (t < 2 ^ 32)

timeout_of-IsTimeout : (negative : Bool) (read : ℕ × Bytes) → IsTimeout (timeout_of negative read)
unfolding timeout_of
timeout_of-IsTimeout negative (n, c ∷ cs) = (omega arith, omega arith)
timeout_of-IsTimeout negative (n, []) = ground arith

strtoul_timeout-IsTimeout : (text : Bytes) → IsTimeout (strtoul_timeout text)
unfolding strtoul_timeout
strtoul_timeout-IsTimeout [] = (omega arith, omega arith)
strtoul_timeout-IsTimeout (c ∷ cs) = ground (
  arith,
  timeout_of-IsTimeout true (read_digits 0 cs),
  timeout_of-IsTimeout false (read_digits 0 (if c == b'+' then cs else c ∷ cs)),
)

-- Whatever stands in the environment, the timeout is at least a second and fits an unsigned int.
db_query_timeout_seconds-IsTimeout :
    (value : Option Bytes) → IsTimeout (db_query_timeout_seconds value)
unfolding db_query_timeout_seconds
db_query_timeout_seconds-IsTimeout none = (omega arith, omega arith)
db_query_timeout_seconds-IsTimeout (some []) = (omega arith, omega arith)
db_query_timeout_seconds-IsTimeout (some (c ∷ cs)) = strtoul_timeout-IsTimeout (skip_space (c ∷ cs))

timeouts :
    db_query_timeout_seconds (some (codes " 45")) ≡ 45
    × db_query_timeout_seconds (some (codes "45s")) ≡ 30
    × db_query_timeout_seconds (some (codes "-1")) ≡ 30
unfolding db_query_timeout_seconds strtoul_timeout timeout_of skip_space read_digits
timeouts = (refl, refl, refl)
