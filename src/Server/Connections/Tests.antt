-- ===== src/Server/Connections/Tests.antt =====
-- Some connections, and an application of the theorem about their counts.
use dbslayer.Prelude.{◌≡◌, refl, true, false, List, [], ◌∷◌, codes, bytes_eq, some, none}
use dbslayer.Json.Value.{pos}
use dbslayer.Server.Connections.{
  Event, accepted, closed, run, accept_connection, connection_close, no_connections,
}
use dbslayer.Server.Connections.Counts.{IsTallied, IsLimited}
use dbslayer.Server.Connections.Limits.{run-IsLimited}

-- two connections from one address, one whose handshake fails, and the end of the first
abbrev events : List Event
events =
    accepted (codes "10.0.0.7") true
    ∷ accepted (codes "10.0.0.7") true
    ∷ accepted (codes "10.0.0.8") false
    ∷ closed 1
    ∷ []

counts_lem :
    ((run events no_connections).connection_counts (codes "10.0.0.7") ≡ some (pos 1))
    × ((run events no_connections).connection_counts (codes "10.0.0.8") ≡ none)
unfolding run accept_connection connection_close bytes_eq
counts_lem = (refl, refl)

run-IsLimited_example :
    IsTallied (run events no_connections) × IsLimited (run events no_connections)
run-IsLimited_example = run-IsLimited events
