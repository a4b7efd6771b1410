-- ===== src/Conn/Tests.antt =====
-- The theorems about util/conn at inputs that meet their hypotheses.
use yoroi.Prelude.{ℕ, ◌+◌, ◌*◌, ◌^◌, ◌≤◌, ◌≡◌, refl, true, false, none, some, List, [], ◌∷◌, arith}
use yoroi.Conn.Backoff.{second, minute, exponential, IsProduct, exponential_bounds}
use yoroi.Conn.Manager.{Manager, Event, fires, dials, receives, takes, puts, start, step, run}
use yoroi.Conn.Manager.Pending.{full_conn, pending}
use yoroi.Conn.Manager.Closed.{count, holds, carries, conns_accounted}

-- The factor is 1.
abbrev steady : ℕ → ℕ → ℕ
steady draw x = x * 2 ^ 53

steady-IsProduct : IsProduct steady
steady-IsProduct = record { low = λ draw x l. omega arith; high = λ draw x l. omega arith }

exponential_bounds_example :
    (second ≤ exponential steady 0 second)
    × (exponential steady 0 second ≤ 3 * second)
    × (exponential steady 0 second ≤ minute)
exponential_bounds_example = exponential_bounds steady 0 second steady-IsProduct (omega arith)

-- The first dial fails, and so does the next one.
abbrev outage : List Event
outage = receives 0 ∷ fires ∷ dials false ∷ receives 0 ∷ []

abbrev waiting : Manager
waiting = record {
  conn = none;
  connc = none;
  reconnectc = some (4 * second);
  backoff = 4 * second;
  dialing = 0;
  closed = [];
  opened = 0;
}

-- A connection that fails is replaced by another.
abbrev failure : List Event
failure = takes ∷ puts (some "broken pipe") ∷ fires ∷ dials true ∷ receives 0 ∷ []

abbrev replaced : Manager
replaced = record {
  conn = some 1;
  connc = none;
  reconnectc = none;
  backoff = second;
  dialing = 0;
  closed = 0 ∷ [];
  opened = 2;
}

conns_accounted_example :
    (count 0 replaced.closed + holds 0 replaced.conn + carries 0 replaced.connc ≡ 1)
    × (full_conn replaced.conn + pending replaced ≡ 1)
unfolding run start step
conns_accounted_example = conns_accounted steady 0 true 0 failure replaced refl
