-- ===== src/Server/Connections/Counts.antt =====
-- The counts are those of the open connections.
use dbslayer.Prelude.{
  ℕ, zero, suc, ◌%◌, ◌^◌, ◌≤◌, ◌≡◌, refl, ap, ◌∙◌, Bool, true, false, List, [], ◌∷◌, Bytes,
  bytes_eq, bytes_eq_iff, get_elem?, length, if◌then◌else◌, Option, none, some, arith,
}
use dbslayer.Json.Value.{ℤ, pos, incremented}
use dbslayer.Server.Connections.{
  Connections, count_or_new, unless_zero, count_down, remove, close_counted, max_connections_per_ip,
}

-- how many of the open connections come from an address
abbrev pub open_from : Bytes → List Bytes → ℕ
open_from ip [] = 0
open_from ip (x ∷ xs) = if bytes_eq x ip then suc (open_from ip xs) else open_from ip xs

-- what the hash holds for a number of connections: nothing for none
abbrev pub held : ℕ → Option ℤ
held zero = none
held (suc n) = some (pos (suc n))

-- The hash holds the number of open connections of each address, and `active_connections` is the
-- number of all.
abbrev pub IsTallied : Connections → Type 0
IsTallied s =
    ((ip : Bytes) → s.connection_counts ip ≡ held (open_from ip s.counted))
    × (s.active_connections ≡ length s.counted % 2 ^ 32)

abbrev pub IsLimited : Connections → Type 0
IsLimited s = (ip : Bytes) → open_from ip s.counted ≤ max_connections_per_ip

pub incremented-held : (n : ℕ) → incremented (count_or_new (held n)) ≡ pos (suc n)
incremented-held zero = refl
incremented-held (suc n) = refl

pub counted_up :
    (hash : Bytes → Option ℤ) (ips : List Bytes) (ip x : Bytes) (b : Bool)
    → bytes_eq ip x ≡ b
    → ((y : Bytes) → hash y ≡ held (open_from y ips))
    → (if b then some (incremented (count_or_new (hash ip))) else hash x)
      ≡ held (if b then suc (open_from x ips) else open_from x ips)
counted_up hash ips ip x true p h =
    ap (λ n. some (incremented (count_or_new n))) (h ip)
    ∙ ap some (incremented-held (open_from ip ips))
    ∙ ap (λ y. held (suc (open_from y ips))) ((bytes_eq_iff ip x).0 p)
counted_up hash ips ip x false p h = h x

abbrev or_else : Bytes → Option Bytes → Bytes
or_else y none = y
or_else y (some z) = z

-- what is left when the connection at `i` is gone
open_from-remove :
    (i : ℕ) (ips : List Bytes) (ip x : Bytes)
    → get_elem? ips i ≡ some ip
    → open_from x ips
      ≡ (if bytes_eq ip x then suc (open_from x (remove i ips)) else open_from x (remove i ips))
open_from-remove i [] ip x e = absurd (ground arith)
open_from-remove zero (y ∷ ys) ip x e =
    ap (λ z. if bytes_eq z x then suc (open_from x ys) else open_from x ys) (ap (or_else y) e)
open_from-remove (suc i) (y ∷ ys) ip x e =
    swap_lem (bytes_eq y x) (bytes_eq ip x) _ _ (open_from-remove i ys ip x e)
  where
    swap_lem :
        (b c : Bool) (m n : ℕ)
        → m ≡ (if c then suc n else n)
        → (if b then suc m else m)
          ≡ (if c then suc (if b then suc n else n) else if b then suc n else n)
    swap_lem true true m n h = ap suc h
    swap_lem true false m n h = ap suc h
    swap_lem false true m n h = h
    swap_lem false false m n h = h

open_from-remove_le :
    (i : ℕ) (ips : List Bytes) (ip x : Bytes)
    → get_elem? ips i ≡ some ip
    → open_from x (remove i ips) ≤ open_from x ips
open_from-remove_le i ips ip x e = less_lem (bytes_eq ip x) _ _ (open_from-remove i ips ip x e)
  where
    less_lem : (b : Bool) (m n : ℕ) → m ≡ (if b then suc n else n) → n ≤ m
    less_lem true m n h = omega (arith, h)
    less_lem false m n h = omega (arith, h)

length-remove :
    (i : ℕ) (ips : List Bytes) (ip : Bytes)
    → get_elem? ips i ≡ some ip
    → suc (length (remove i ips)) ≡ length ips
length-remove i [] ip e = absurd (ground arith)
length-remove zero (y ∷ ys) ip e = refl
length-remove (suc i) (y ∷ ys) ip e = ap suc (length-remove i ys ip e)

unless_zero_lem : (n : ℕ) → unless_zero (pos n) ≡ held n
unless_zero_lem zero = refl
unless_zero_lem (suc n) = refl

bytes_eq_refl : (ip : Bytes) → bytes_eq ip ip ≡ true
bytes_eq_refl ip = (bytes_eq_iff ip ip).1 refl

-- one connection less from its own address
own_lem :
    (i : ℕ) (ips : List Bytes) (ip : Bytes)
    → get_elem? ips i ≡ some ip
    → open_from ip ips ≡ suc (open_from ip (remove i ips))
own_lem i ips ip e =
    open_from-remove i ips ip ip e
    ∙ ap (λ b. if b then suc (open_from ip (remove i ips)) else open_from ip (remove i ips))
        (bytes_eq_refl ip)

counted_down :
    (hash : Bytes → Option ℤ) (i : ℕ) (ips : List Bytes) (ip x : Bytes) (b : Bool)
    → get_elem? ips i ≡ some ip
    → bytes_eq ip x ≡ b
    → ((y : Bytes) → hash y ≡ held (open_from y ips))
    → (if b then held (open_from ip (remove i ips)) else hash x) ≡ held (open_from x (remove i ips))
counted_down hash i ips ip x true e p h =
    ap (λ y. held (open_from y (remove i ips))) ((bytes_eq_iff ip x).0 p)
counted_down hash i ips ip x false e p h =
    h x
    ∙ ap held (
        open_from-remove i ips ip x e
        ∙ ap (λ b. if b then suc (open_from x (remove i ips)) else open_from x (remove i ips)) p)

pub close_counted-IsTallied :
    (o : Option Bytes) (i : ℕ) (s : Connections)
    → get_elem? s.counted i ≡ o
    → IsTallied s
    → IsTallied (close_counted o i s)
close_counted-IsTallied none i s e h = h
close_counted-IsTallied (some ip) i s e (h, a) = (
  λ x.
      ap (λ o. count_down ip o s.connection_counts x) (h ip ∙ ap held (own_lem i s.counted ip e))
      ∙ ap (λ o. if bytes_eq ip x then o else s.connection_counts x)
          (unless_zero_lem (open_from ip (remove i s.counted)))
      ∙ counted_down s.connection_counts i s.counted ip x (bytes_eq ip x) e refl h,
  omega (arith, a, length-remove i s.counted ip e),
)

pub close_counted-IsLimited :
    (o : Option Bytes) (i : ℕ) (s : Connections)
    → get_elem? s.counted i ≡ o
    → IsLimited s
    → IsLimited (close_counted o i s)
close_counted-IsLimited none i s e h = h
close_counted-IsLimited (some ip) i s e h =
    λ x. omega (arith, h x, open_from-remove_le i s.counted ip x e)
