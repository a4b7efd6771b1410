-- ===== src/Sd/Endpointer.antt =====
-- sd/endpointer.go: a DefaultEndpointer, whose channel `ch` is registered at a cache of instances. The channel
-- has no buffer: its goroutine `receive` takes an event when it is sent, applies it to the cache of endpoints some time
-- later, and takes the next one only then. The slice of an event is a copy that nobody else has.
pub mod News
pub mod Broadcasts
pub mod Endpoints
mod Tests
use yoroi.Prelude.{
  ℕ, zero, suc, ◌+◌, ◌-◌, Option, none, some, List, [], ◌∷◌, Bool, true, false, ◌==◌, length, take,
  if◌then◌else◌,
}
use yoroi.Sd.Event.{Event}
use yoroi.Sd.EndpointCache.{
  EndpointerOptions, EndpointCache, Factory, new_endpoint_cache, update, endpoints_exclusive,
}
use yoroi.Sd.InstanceCache as Instances
use yoroi.Sd.InstanceCache.{Heap, Sent, contents}

pub record Endpointer {ℓ} (P : Type ℓ) : Type ℓ where
  pub cache : EndpointCache P
  pub instancer : Instances.Cache
  pub ch : ℕ
  -- the event that `receive` has taken, while it has not been applied
  pub taken : Option Event

abbrev pub is_for : ℕ → Option ℕ → Bool
is_for ch none = false
is_for ch (some c) = c == ch

-- The instances that a receiver sees.
abbrev pub event_of : Heap → Sent → Event
event_of h x = record { instances = contents h x.notice.instances; err = x.notice.err }

-- What a step of the cache of instances has sent, the last one first.
abbrev pub news : Instances.Cache → Instances.Cache → List Sent
news c c' = take (length c'.sent - length c.sent) c'.sent

-- The steps of the instancer, the updates of the goroutine, and callers of Endpoints.
pub data Step : Type 0 where
  instancer : ℕ → Instances.Step → Step
  applies : ℕ → Step
  endpoints : ℕ → Step

module _ {ℓ} {P : Type ℓ} (factory : Factory P) where
  -- The body of the loop of `receive`.
  abbrev pub apply : ℕ → Option Event → EndpointCache P → EndpointCache P
  apply now none cache = cache
  apply now (some event) cache = update factory now cache event

  -- What `receive` does while these are sent: before it takes one, it applies the one it has.
  abbrev pub receive :
      ℕ → ℕ → Heap → List Sent → EndpointCache P × Option Event → EndpointCache P × Option Event
  receive now ch h [] s = s
  receive now ch h (x ∷ xs) s =
      let (cache, taken) = receive now ch h xs s in
      if is_for ch x.channel then (apply now taken cache, some (event_of h x)) else (cache, taken)

  abbrev pub hear : ℕ → Endpointer P → Instances.Cache → Endpointer P
  hear now e c' =
      let (cache, taken) = receive now e.ch c'.heap (news e.instancer c') (e.cache, e.taken) in
      record e { instancer = c'; cache = cache; taken = taken }

  unfoldable pub step : Endpointer P → Step → Endpointer P
  step e (instancer now s) = hear now e (Instances.step e.instancer s)
  step e (applies now) = record e { cache = apply now e.taken e.cache; taken = none }
  step e (endpoints now) = record e { cache = (endpoints_exclusive factory now e.cache).0 }

  unfoldable pub run : Endpointer P → List Step → Endpointer P
  run e [] = e
  run e (s ∷ ss) = run (step e s) ss

  -- Once the goroutine has its first event, which may not be applied yet.
  unfoldable pub new_endpointer : ℕ → EndpointerOptions → Instances.Cache → ℕ → Endpointer P
  new_endpointer now options src ch =
      hear now
        (record { cache = new_endpoint_cache options; instancer = src; ch = ch; taken = none })
        (Instances.step src (Instances.registers ch))
