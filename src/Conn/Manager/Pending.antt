-- ===== src/Conn/Manager/Pending.antt =====
-- util/conn/manager.go does not get stuck: without a connection, one is on its way.
use yoroi.Prelude.{ℕ, ◌+◌, ◌≤◌, ◌<◌, Option, none, some}
use yoroi.Conn.Backoff.{second, minute}
use yoroi.Conn.Manager.{Conn, Manager, Event, fires, dials, receives, takes, puts}

abbrev pub armed : Option ℕ → ℕ
armed none = 0
armed (some d) = 1

abbrev pub full : Option Conn → ℕ
full none = 0
full (some c) = 1

abbrev pub full_conn : Conn → ℕ
full_conn none = 0
full_conn (some c) = 1

-- How many results, timers and dials are on their way to the loop.
abbrev pub pending : Manager → ℕ
pending m = armed m.reconnectc + full m.connc + m.dialing

pub record IsLive (m : Manager) : Type 0 where
  pub on_its_way : 0 < full_conn m.conn + pending m
  pub backoff_low : second ≤ m.backoff
  pub backoff_high : m.backoff ≤ minute

-- What happens by itself, with no client.
abbrev pub IsInternal : Event → Type 0
IsInternal fires = Unit
IsInternal (dials dialled) = Unit
IsInternal (receives draw) = Unit
IsInternal takes = ⊥
IsInternal (puts err) = ⊥
