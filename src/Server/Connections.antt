-- ===== src/Server/Connections.antt =====
-- common/slayer_http_server.c: the counts of open connections, which the accepting thread and the threads
-- that close connections change under a mutex: `slayer_http_connection_count_increment`,
-- `slayer_http_connection_close` and the check behind `apr_socket_accept`. The hash of APR is a function.
pub mod Counts
pub mod Limits
mod Tests
use dbslayer.Prelude.{
  ℕ, zero, suc, ◌+◌, ◌-◌, ◌%◌, ◌^◌, Bool, true, false, List, [], ◌∷◌, Bytes, bytes_eq, ltb,
  get_elem?, if◌then◌else◌, Option, none, some,
}
use dbslayer.Json.Value.{ℤ, pos, negsuc, incremented, decremented}

abbrev pub max_connections_per_ip : ℕ
max_connections_per_ip = 50

pub record Connections : Type 0 where
  pub connection_counts : Bytes → Option ℤ
  pub active_connections : ℕ
  -- `remote_ip` of each connection with `connection_counted`, the latest first
  pub counted : List Bytes

-- `apr_hash_set`
abbrev pub hash_set : Bytes → Option ℤ → (Bytes → Option ℤ) → Bytes → Option ℤ
hash_set key value hash k = if bytes_eq key k then value else hash k

-- a new count is 0
abbrev pub count_or_new : Option ℤ → ℤ
count_or_new none = pos 0
count_or_new (some n) = n

-- `slayer_http_connection_count_increment`, and the count that it returns
abbrev pub count_increment : Bytes → Connections → ℤ × Connections
count_increment ip s =
    let current = incremented (count_or_new (s.connection_counts ip)) in
    (
      current,
      record {
        connection_counts = hash_set ip (some current) s.connection_counts;
        active_connections = (s.active_connections + 1) % 2 ^ 32;
        counted = ip ∷ s.counted;
      },
    )

abbrev pub unless_zero : ℤ → Option ℤ
unless_zero (pos zero) = none
unless_zero (pos (suc n)) = some (pos (suc n))
unless_zero (negsuc n) = some (negsuc n)

abbrev pub count_down : Bytes → Option ℤ → (Bytes → Option ℤ) → Bytes → Option ℤ
count_down ip none hash = hash
count_down ip (some n) hash = hash_set ip (unless_zero (decremented n)) hash

abbrev pub remove : ℕ → List Bytes → List Bytes
remove i [] = []
remove zero (ip ∷ ips) = ips
remove (suc i) (ip ∷ ips) = ip ∷ remove i ips

-- a connection that is not counted is not counted down
abbrev pub close_counted : Option Bytes → ℕ → Connections → Connections
close_counted none i s = s
close_counted (some ip) i s = record {
  connection_counts = count_down ip (s.connection_counts ip) s.connection_counts;
  active_connections = (s.active_connections + (2 ^ 32 - 1)) % 2 ^ 32;
  counted = remove i s.counted;
}

-- `slayer_http_connection_close` of the connection at `i` in `counted`
unfoldable pub connection_close : ℕ → Connections → Connections
connection_close i s = close_counted (get_elem? s.counted i) i s

abbrev pub is_over : ℤ → Bool
is_over (pos n) = ltb max_connections_per_ip n
is_over (negsuc n) = false

abbrev pub checked : Bool → ℤ × Connections → Connections
checked tls (current, s) =
    if is_over current then connection_close 0 s else if tls then s else connection_close 0 s

-- A connection from an address is accepted; `tls` says whether its handshake succeeds or none is wanted.
unfoldable pub accept_connection : Bytes → Bool → Connections → Connections
unfolding connection_close
accept_connection ip tls s = checked tls (count_increment ip s)

pub data Event : Type 0 where
  accepted : Bytes → Bool → Event
  closed : ℕ → Event

unfoldable pub run : List Event → Connections → Connections
unfolding accept_connection
run [] s = s
run (accepted ip tls ∷ es) s = run es (accept_connection ip tls s)
run (closed i ∷ es) s = run es (connection_close i s)

abbrev pub no_connections : Connections
no_connections = record { connection_counts = λ ip. none; active_connections = 0; counted = [] }
