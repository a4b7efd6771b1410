-- ===== src/Sd/Etcd/Registrar.antt =====
-- sd/etcd/registrar.go: Register, the goroutine `loop` and Deregister, as steps between which other
-- goroutines run. A channel is known by its number, and log lines are left out.
pub mod Stuck
pub mod Late
use yoroi.Prelude.{
  ℕ, zero, suc, ◌+◌, ◌-◌, Option, none, some, List, [], ◌∷◌, Bool, true, false, ◌==◌, ◌&&◌, ◌||◌,
  not, ltb, if◌then◌else◌,
}

-- Calls of the etcd client with the service.
pub data Call : Type 0 where
  registered : Call
  deregistered : Call

-- The field `quit`, how many channels were made and which are closed, and the mutex. Goroutines of the
-- same place in the code are alike but for the channel that a select waits for, nil or not: so
-- `starting` is the number of those that have not locked the mutex, `ready` of those before a select,
-- `beating` of those that call the client in the loop, and `closing` of those in Deregister that have
-- called the client. `returned` counts the calls of Deregister that have returned.
pub record Registrar : Type 0 where
  pub ttl : Bool
  pub locked : Bool
  pub quit : Option ℕ
  pub made : ℕ
  pub closed : List ℕ
  pub starting : ℕ
  pub ready : ℕ
  pub selecting : List (Option ℕ)
  pub beating : ℕ
  pub closing : ℕ
  pub returned : ℕ
  pub calls : List Call

pub data Event : Type 0 where
  -- Register, with its call of the client
  registers : Event
  -- a goroutine locks the mutex, and goes on to its loop or returns
  starts : Event
  -- one evaluates the channels of its select
  selects : Event
  -- the i-th select gets a tick, and the client is called
  ticks : ℕ → Event
  -- that call returns
  beats : Event
  -- the i-th select finds its channel closed
  stops : ℕ → Event
  -- Deregister calls the client
  deregisters : Event
  -- it locks the mutex, and goes on to its end
  closes : Event

unfoldable pub new_registrar : Bool → Registrar
new_registrar ttl = record {
  ttl = ttl;
  locked = false;
  quit = none;
  made = 0;
  closed = [];
  starting = 0;
  ready = 0;
  selecting = [];
  beating = 0;
  closing = 0;
  returned = 0;
  calls = [];
}

unfoldable pub register : Registrar → Registrar
register r = record r {
  calls = registered ∷ r.calls;
  starting = if r.ttl then r.starting + 1 else r.starting;
}

-- The loop up to its first select. If there is a channel already, it returns with the mutex locked.
abbrev pub lock_and_make : Registrar → Option ℕ → Registrar
lock_and_make r (some c) = record r { locked = true; starting = r.starting - 1 }
lock_and_make r none = record r {
  quit = some r.made;
  made = r.made + 1;
  starting = r.starting - 1;
  ready = r.ready + 1;
}

abbrev pub is_closed : Option ℕ → List ℕ → Bool
is_closed none closed = false
is_closed (some c) [] = false
is_closed (some c) (x ∷ xs) = x == c || is_closed (some c) xs

abbrev pub select_at : List (Option ℕ) → ℕ → Option (Option ℕ)
select_at [] i = none
select_at (c ∷ cs) zero = some c
select_at (c ∷ cs) (suc i) = select_at cs i

abbrev pub remove_at : List (Option ℕ) → ℕ → List (Option ℕ)
remove_at [] i = []
remove_at (c ∷ cs) zero = cs
remove_at (c ∷ cs) (suc i) = c ∷ remove_at cs i

abbrev pub tick : Registrar → ℕ → Option (Option ℕ) → Registrar
tick r i none = r
tick r i (some c) = record r {
  selecting = remove_at r.selecting i;
  beating = r.beating + 1;
  calls = registered ∷ r.calls;
}

abbrev pub stop : Registrar → ℕ → Option (Option ℕ) → Registrar
stop r i none = r
stop r i (some c) =
    if is_closed c r.closed then record r { selecting = remove_at r.selecting i } else r

-- The second half of Deregister.
abbrev pub close_quit : Registrar → Option ℕ → Registrar
close_quit r none = record r { closing = r.closing - 1; returned = r.returned + 1 }
close_quit r (some c) = record r {
  quit = none;
  closed = c ∷ r.closed;
  closing = r.closing - 1;
  returned = r.returned + 1;
}

-- A step that cannot be taken changes nothing: it waits.
unfoldable pub step : Registrar → Event → Registrar
unfolding register
step r registers = register r
step r starts = if not r.locked && ltb 0 r.starting then lock_and_make r r.quit else r
step r selects =
    if ltb 0 r.ready then record r { ready = r.ready - 1; selecting = r.quit ∷ r.selecting } else r
step r (ticks i) = tick r i (select_at r.selecting i)
step r beats =
    if ltb 0 r.beating then record r { beating = r.beating - 1; ready = r.ready + 1 } else r
step r (stops i) = stop r i (select_at r.selecting i)
step r deregisters = record r { closing = r.closing + 1; calls = deregistered ∷ r.calls }
step r closes = if not r.locked && ltb 0 r.closing then close_quit r r.quit else r

unfoldable pub run : Registrar → List Event → Registrar
run r [] = r
run r (e ∷ es) = run (step r e) es
