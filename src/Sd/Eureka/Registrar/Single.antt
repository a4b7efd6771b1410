-- ===== src/Sd/Eureka/Registrar/Single.antt =====
-- How many loops of sd/eureka/registrar.go run.
use yoroi.Prelude.{◌+◌, ◌≤◌, ◌≡◌, ◌≢◌, List, [], ◌∷◌, Bool, true, false, arith}
use yoroi.Sd.Eureka.Registrar.{
  Call, registered, heartbeat_sent, reregistered, deregistered, registering, sending, awaiting,
  answered, Registrar, new_registrar, Event, registers, starts, deregisters, meets, ends, returns,
  ticks, beats, step, run,
}

-- The last call is one of DeregisterInstance, or there was none.
abbrev pub ends_deregistered : List Call → Bool
ends_deregistered [] = true
ends_deregistered (registered succeeds ∷ calls) = false
ends_deregistered (heartbeat_sent ∷ calls) = false
ends_deregistered (reregistered ∷ calls) = false
ends_deregistered (deregistered succeeds ∷ calls) = true

-- One loop runs while there is a channel, until Deregister has its answer; a loop ends only while
-- Deregister waits for that; and the mutex tells whether there is a channel.
pub record IsSingle (r : Registrar) : Type 0 where
  pub none_live : r.quitc ≡ false → r.waiting + r.beating + r.ending ≡ 0
  pub none_after : r.holder ≡ answered → r.waiting + r.beating + r.ending ≡ 0
  pub one_live : r.quitc ≡ true → r.holder ≢ answered → r.waiting + r.beating + r.ending ≡ 1
  pub ending_asked : r.holder ≡ awaiting → r.ending ≡ 1
  pub ending_unasked : r.holder ≢ awaiting → r.ending ≡ 0
  pub on_register : r.holder ≡ registering → r.quitc ≡ false
  pub on_send : r.holder ≡ sending → r.quitc ≡ true
  pub on_receive : r.holder ≡ awaiting → r.quitc ≡ true
  pub on_answer : r.holder ≡ answered → r.quitc ≡ true
  pub gone : r.quitc ≡ false → ends_deregistered r.calls ≡ true
  pub gone_after : r.holder ≡ answered → ends_deregistered r.calls ≡ true

pub new_registrar-IsSingle : IsSingle new_registrar
unfolding new_registrar
new_registrar-IsSingle = ground arith

step-IsSingle : (r : Registrar) (e : Event) → IsSingle r → IsSingle (step r e)
unfolding step
step-IsSingle r registers h = ground (arith, h)
step-IsSingle r (starts b) h = ground (arith, h)
step-IsSingle r deregisters h = ground (arith, h)
step-IsSingle r meets h = ground (arith, h)
step-IsSingle r (ends b) h = ground (arith, h)
step-IsSingle r returns h = ground (arith, h)
step-IsSingle r ticks h = ground (arith, h)
step-IsSingle r (beats b) h = ground (arith, h)

pub run-IsSingle : (r : Registrar) (es : List Event) → IsSingle r → IsSingle (run r es)
unfolding run
run-IsSingle r [] h = h
run-IsSingle r (e ∷ es) h = run-IsSingle (step r e) es (step-IsSingle r e h)

-- After any events at most one loop runs; and whenever there is no channel, no loop runs, and the last
-- call of the connection was DeregisterInstance, which may have returned an error, or there was none.
pub at_most_one_loop :
    (es : List Event)
    → let r = run new_registrar es in
      (r.waiting + r.beating + r.ending ≤ 1)
      × (r.quitc ≡ false
          → (r.waiting + r.beating + r.ending ≡ 0) × (ends_deregistered r.calls ≡ true))
at_most_one_loop es =
    let h = run-IsSingle new_registrar es new_registrar-IsSingle in
    (few (run new_registrar es) h, λ e. (h.none_live e, h.gone e))
  where
    few : (r : Registrar) → IsSingle r → r.waiting + r.beating + r.ending ≤ 1
    few r h = ground (arith, h)
