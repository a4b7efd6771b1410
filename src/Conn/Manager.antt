-- ===== src/Conn/Manager.antt =====
-- util/conn/manager.go: the goroutine `loop` as a state, its `select` as a step on an event. A
-- connection is known by its handle; a dial that is under way ends when the buffered channel
-- `connc` has room for its result.
pub mod Pending
pub mod Closed
use yoroi.Prelude.{
  ℕ, zero, suc, ◌+◌, ◌-◌, Option, none, some, List, [], ◌∷◌, Bool, true, false, ltb, if◌then◌else◌,
  String,
}
use yoroi.Conn.Backoff.{second, exponential}

-- A nil or an open connection.
abbrev pub Conn : Type 0
Conn = Option ℕ

pub record Manager : Type 0 where
  pub conn : Conn
  -- the buffer of `connc`
  pub connc : Option Conn
  -- the timer behind `reconnectc`, by its duration
  pub reconnectc : Option ℕ
  pub backoff : ℕ
  -- goroutines that dial
  pub dialing : ℕ
  -- connections on which `Close` was called, the last one first
  pub closed : List ℕ
  -- how many connections the dialer has opened; they are numbered in that order
  pub opened : ℕ

-- What the loop, and the goroutines that it starts, do next.
pub data Event : Type 0 where
  -- the timer fires
  fires : Event
  -- a dial ends, with a connection or, after an error, with nil
  dials : Bool → Event
  -- the loop receives from `connc`; the number is the random draw
  receives : ℕ → Event
  -- a client takes the connection
  takes : Event
  -- a client puts an error, or nil
  puts : Option String → Event

-- `dial`, as the connection of the given number.
abbrev pub dial : Bool → ℕ → Conn
dial true n = some n
dial false n = none

-- The state as the loop begins, given the result of the first dial.
unfoldable pub start : Bool → Manager
start dialled =
    let conn = dial dialled 0 in
    record {
      conn = conn;
      connc = some conn;
      reconnectc = none;
      backoff = second;
      dialing = 0;
      closed = [];
      opened = if dialled then 1 else 0;
    }

module _ (product : ℕ → ℕ → ℕ) where
  abbrev pub receive : Manager → ℕ → Conn → Manager
  receive m draw none =
      let wait = exponential product draw m.backoff in
      record m { conn = none; connc = none; backoff = wait; reconnectc = some wait }
  receive m draw (some c) = record m {
    conn = some c;
    connc = none;
    backoff = second;
    reconnectc = none;
  }

  abbrev pub put : Manager → Option String → Conn → Manager
  put m none conn = m
  put m (some e) none = m
  put m (some e) (some c) = record m { conn = none; reconnectc = some 1; closed = c ∷ m.closed }

  -- `none` where the event cannot happen in the state.
  unfoldable pub step : Manager → Event → Option Manager
  step m fires = elim m.reconnectc [
    | none ↦ none
    | some d ↦ some (record m { reconnectc = none; dialing = m.dialing + 1 })
  ]
  step m (dials dialled) = elim m.connc [
    | some r ↦ none
    | none ↦
        if ltb 0 m.dialing
        then some (record m {
          connc = some (dial dialled m.opened);
          dialing = m.dialing - 1;
          opened = if dialled then m.opened + 1 else m.opened;
        })
        else none
  ]
  step m (receives draw) = elim m.connc [ none ↦ none | some r ↦ some (receive m draw r) ]
  step m takes = some m
  step m (puts err) = some (put m err m.conn)

  abbrev pub then_run : (Manager → Option Manager) → Option Manager → Option Manager
  then_run f none = none
  then_run f (some m) = f m

  unfoldable pub run : Manager → List Event → Option Manager
  run m [] = some m
  run m (e ∷ es) = then_run (λ m'. run m' es) (step m e)
