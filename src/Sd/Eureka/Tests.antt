-- ===== src/Sd/Eureka/Tests.antt =====
-- The theorems about sd/eureka/registrar.go at concrete events.
use yoroi.Prelude.{◌+◌, ◌≤◌, ◌≡◌, some, List, [], ◌∷◌, true, false}
use yoroi.Sd.Eureka.Registrar.{
  Event, registers, starts, deregisters, meets, ends, returns, ticks, beats, free, Registrar, bad,
  new_registrar, step, run,
}
use yoroi.Sd.Eureka.Registrar.Single.{ends_deregistered, at_most_one_loop}
use yoroi.Sd.Eureka.Registrar.Ending.{rest_of, at_send, deregister_ends}

abbrev events : List Event
events =
    registers
    ∷ starts true
    ∷ ticks
    ∷ registers
    ∷ beats (bad (some 404))
    ∷ deregisters
    ∷ meets
    ∷ ends false
    ∷ returns
    ∷ []

at_most_one_loop_example :
    ((run new_registrar events).waiting
        + (run new_registrar events).beating
        + (run new_registrar events).ending
      ≤ 1)
    × ((run new_registrar events).quitc ≡ false
        → ((run new_registrar events).waiting
              + (run new_registrar events).beating
              + (run new_registrar events).ending
            ≡ 0)
          × (ends_deregistered (run new_registrar events).calls ≡ true))
at_most_one_loop_example = at_most_one_loop events

-- Deregister has the mutex while a heartbeat is on its way.
abbrev busy : List Event
busy = registers ∷ starts true ∷ ticks ∷ deregisters ∷ []

abbrev after : Registrar
after =
    run (run new_registrar busy)
      (rest_of false (run new_registrar busy).holder (run new_registrar busy).beating)

deregister_ends_example :
    (after.returned ≡ (run new_registrar busy).returned + 1)
    × (after.holder ≡ free)
    × (after.quitc ≡ false)
    × (after.waiting + after.beating + after.ending ≡ 0)
unfolding run step new_registrar
deregister_ends_example = deregister_ends busy false at_send
