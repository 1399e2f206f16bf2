-- ===== src/Server/Connections/Limits.antt =====
-- No address has more open connections than the limit, whatever happens.
use dbslayer.Prelude.{
  ℕ, suc, ◌≤◌, ◌≡◌, refl, sym, ap, ◌∙◌, Bool, true, false, List, [], ◌∷◌, Bytes, bytes_eq,
  bytes_eq_iff, get_elem?, if◌then◌else◌, some, arith, subst,
}
use dbslayer.Json.Value.{pos, incremented}
use dbslayer.Server.Connections.{
  Connections, count_or_new, count_increment, connection_close, is_over, accept_connection, Event,
  accepted, closed, run, no_connections, max_connections_per_ip,
}
use dbslayer.Server.Connections.Counts.{
  open_from, IsTallied, IsLimited, incremented-held, counted_up, close_counted-IsTallied,
  close_counted-IsLimited,
}

abbrev IsGood : Connections → Type 0
IsGood s = IsTallied s × IsLimited s

connection_close-IsGood : (i : ℕ) (s : Connections) → IsGood s → IsGood (connection_close i s)
unfolding connection_close
connection_close-IsGood i s (h, k) = (
  close_counted-IsTallied (get_elem? s.counted i) i s refl h,
  close_counted-IsLimited (get_elem? s.counted i) i s refl k,
)

count_increment-IsTallied :
    (ip : Bytes) (s : Connections) → IsTallied s → IsTallied (count_increment ip s).1
count_increment-IsTallied ip s (h, a) =
    (λ x. counted_up s.connection_counts s.counted ip x (bytes_eq ip x) refl h, omega (arith, a))

-- the connection that was one too many, or has no handshake, leaves the others
close_newest :
    (ip : Bytes) (s : Connections) → IsGood s → IsGood (connection_close 0 (count_increment ip s).1)
unfolding connection_close
close_newest ip s (h, k) = (
  close_counted-IsTallied (some ip) 0 (count_increment ip s).1 refl
      (count_increment-IsTallied ip s h),
  k,
)

stays-IsLimited :
    (ip : Bytes) (s : Connections)
    → IsGood s
    → is_over (count_increment ip s).0 ≡ false
    → IsLimited (count_increment ip s).1
stays-IsLimited ip s (h, k) e x = within_lem (bytes_eq ip x) refl
  where
    count_lem : is_over (pos (suc (open_from ip s.counted))) ≡ false
    count_lem =
        ap is_over (
          sym (incremented-held (open_from ip s.counted))
          ∙ ap (λ o. incremented (count_or_new o)) (sym (h.0 ip)))
        ∙ e

    room : suc (open_from ip s.counted) ≤ max_connections_per_ip
    room = ground (arith, count_lem)

    within_lem :
        (b : Bool)
        → bytes_eq ip x ≡ b
        → (if b then suc (open_from x s.counted) else open_from x s.counted)
          ≤ max_connections_per_ip
    within_lem true p =
        subst (λ y. suc (open_from y s.counted) ≤ max_connections_per_ip) ((bytes_eq_iff ip x).0 p)
          room
    within_lem false p = k x

accept_connection-IsGood :
    (ip : Bytes) (tls : Bool) (s : Connections) → IsGood s → IsGood (accept_connection ip tls s)
unfolding accept_connection
accept_connection-IsGood ip tls s h = checked_lem (is_over (count_increment ip s).0) tls refl
  where
    checked_lem :
        (b t : Bool)
        → is_over (count_increment ip s).0 ≡ b
        → IsGood (
            if b
            then connection_close 0 (count_increment ip s).1
            else if t
            then (count_increment ip s).1
            else connection_close 0 (count_increment ip s).1)
    checked_lem true t e = close_newest ip s h
    checked_lem false true e = (count_increment-IsTallied ip s h.0, stays-IsLimited ip s h e)
    checked_lem false false e = close_newest ip s h

run-IsGood : (es : List Event) (s : Connections) → IsGood s → IsGood (run es s)
unfolding run
run-IsGood [] s h = h
run-IsGood (accepted ip tls ∷ es) s h =
    run-IsGood es (accept_connection ip tls s) (accept_connection-IsGood ip tls s h)
run-IsGood (closed i ∷ es) s h =
    run-IsGood es (connection_close i s) (connection_close-IsGood i s h)

-- However connections are accepted and closed from the start of the server on: the hash holds for each
-- address how many of its connections are open, and nothing for none; none has more than 50; and
-- `active_connections` is the number of all open connections.
pub run-IsLimited :
    (es : List Event) → IsTallied (run es no_connections) × IsLimited (run es no_connections)
run-IsLimited es = run-IsGood es no_connections ((λ ip. refl, refl), λ ip. omega arith)
