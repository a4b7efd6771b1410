-- ===== src/Sd/Eureka/Registrar.antt =====
-- sd/eureka/registrar.go: Register, Deregister and the goroutine `loop`, as steps between which other
-- goroutines run. Goroutines at the same place in the code are alike, so they are counted. Log lines
-- are left out.
pub mod Single
pub mod Ending
use yoroi.Prelude.{
  ℕ, ◌+◌, ◌-◌, Option, none, some, List, [], ◌∷◌, Bool, true, false, ◌==◌, ltb, if◌then◌else◌,
}

-- Calls of the Eureka connection with the instance; the Boolean says whether the call returned no error, which
-- makes a difference only to a log line.
pub data Call : Type 0 where
  registered : Bool → Call
  heartbeat_sent : Call
  reregistered : Call
  deregistered : Bool → Call

-- Who has the mutex: nobody, Register that has found no channel, or Deregister at its send, at its
-- receive of `q`, or with `q` closed.
pub data Holder : Type 0 where
  free registering sending awaiting answered : Holder

-- `quitc` says whether the channel is there. Of the loops, `waiting` are in the select, `beating` in a
-- heartbeat, and `ending` have received a `q`. `returned` counts the calls of Deregister that have
-- returned after they got the mutex.
pub record Registrar : Type 0 where
  pub holder : Holder
  pub quitc : Bool
  pub waiting : ℕ
  pub beating : ℕ
  pub ending : ℕ
  pub returned : ℕ
  pub calls : List Call

unfoldable pub new_registrar : Registrar
new_registrar = record {
  holder = free;
  quitc = false;
  waiting = 0;
  beating = 0;
  ending = 0;
  returned = 0;
  calls = [];
}

-- What a heartbeat gets; the status code, if the error has one.
pub data Beat : Type 0 where
  good : Beat
  bad : Option ℕ → Beat

abbrev pub is_not_found : Option ℕ → Bool
is_not_found none = false
is_not_found (some code) = code == 404

-- heartbeat
abbrev pub heartbeat : Beat → List Call → List Call
heartbeat good calls = heartbeat_sent ∷ calls
heartbeat (bad code) calls =
    if is_not_found code then reregistered ∷ heartbeat_sent ∷ calls else heartbeat_sent ∷ calls

pub data Event : Type 0 where
  -- Register gets the mutex, and comes to its end
  registers : Event
  starts : Bool → Event
  -- Deregister gets the mutex; a loop receives `q`, calls the connection and closes `q`; and
  -- Deregister comes to its end
  deregisters : Event
  meets : Event
  ends : Bool → Event
  returns : Event
  -- a select gets a tick, and the heartbeat is over
  ticks : Event
  beats : Beat → Event

abbrev pub on_register : Registrar → Bool → Registrar
on_register r true = r
on_register r false = record r { holder = registering }

abbrev pub on_deregister : Registrar → Bool → Registrar
on_deregister r true = record r { holder = sending }
on_deregister r false = record r { returned = r.returned + 1 }

-- A step that cannot be taken changes nothing: it waits.
module _ (r : Registrar) where
  abbrev pub when_free : Registrar → Holder → Registrar
  when_free next free = next
  when_free next registering = r
  when_free next sending = r
  when_free next awaiting = r
  when_free next answered = r

  abbrev pub when_registering : Bool → Holder → Registrar
  when_registering succeeds registering = record r {
    holder = free;
    quitc = true;
    waiting = r.waiting + 1;
    calls = registered succeeds ∷ r.calls;
  }
  when_registering succeeds free = r
  when_registering succeeds sending = r
  when_registering succeeds awaiting = r
  when_registering succeeds answered = r

  abbrev pub when_sending : Holder → Registrar
  when_sending sending =
      if ltb 0 r.waiting
      then record r { holder = awaiting; waiting = r.waiting - 1; ending = r.ending + 1 }
      else r
  when_sending free = r
  when_sending registering = r
  when_sending awaiting = r
  when_sending answered = r

  abbrev pub when_awaiting : Bool → Holder → Registrar
  when_awaiting succeeds awaiting =
      if ltb 0 r.ending
      then record r {
        holder = answered;
        ending = r.ending - 1;
        calls = deregistered succeeds ∷ r.calls;
      }
      else r
  when_awaiting succeeds free = r
  when_awaiting succeeds registering = r
  when_awaiting succeeds sending = r
  when_awaiting succeeds answered = r

  abbrev pub when_answered : Holder → Registrar
  when_answered answered = record r { holder = free; quitc = false; returned = r.returned + 1 }
  when_answered free = r
  when_answered registering = r
  when_answered sending = r
  when_answered awaiting = r

unfoldable pub step : Registrar → Event → Registrar
step r registers = when_free r (on_register r r.quitc) r.holder
step r (starts succeeds) = when_registering r succeeds r.holder
step r deregisters = when_free r (on_deregister r r.quitc) r.holder
step r meets = when_sending r r.holder
step r (ends succeeds) = when_awaiting r succeeds r.holder
step r returns = when_answered r r.holder
step r ticks =
    if ltb 0 r.waiting then record r { waiting = r.waiting - 1; beating = r.beating + 1 } else r
step r (beats b) =
    if ltb 0 r.beating
    then record r { beating = r.beating - 1; waiting = r.waiting + 1; calls = heartbeat b r.calls }
    else r

unfoldable pub run : Registrar → List Event → Registrar
run r [] = r
run r (e ∷ es) = run (step r e) es
