-- ===== src/Sd/Endpointer/Tests.antt =====
-- The theorem about the endpoints of a DefaultEndpointer at concrete steps.
use yoroi.Prelude.{arith, refl, String, none, some, List, [], ◌∷◌, sort, member, true}
use yoroi.Sd.EndpointCache.{Made, made, Effect, EndpointerOptions}
use yoroi.Sd.EndpointCache.Owned.{IsFor}
use yoroi.Sd.InstanceCache as Instances
use yoroi.Sd.InstanceCache.{new_cache, updates, reads, writes, deregisters}
use yoroi.Sd.InstanceCache.Arrays.{IsIsolated}
use yoroi.Sd.Endpointer.{step, Step, instancer, applies, endpoints, run, new_endpointer}
use yoroi.Sd.Endpointer.Endpoints.{IsOpen, endpoints_follow}

-- The endpoints are the strings of the instances.
abbrev factory : List (Effect String) → String → Made String
factory trace i = made (record { endpoint = i; closer = none })

abbrev options : EndpointerOptions
options = record { invalidate_on_error = true; invalidate_timeout = 5 }

-- An error comes and goes, Endpoints is called after the deadline, and another receiver overwrites its slice.
abbrev steps : List Step
steps =
    instancer 1 (updates (some ("b" ∷ "a" ∷ [])) none)
    ∷ instancer 2 (updates none (some "down"))
    ∷ applies 3
    ∷ endpoints 9
    ∷ instancer 10 (updates (some ("c" ∷ "a" ∷ [])) none)
    ∷ instancer 11 reads
    ∷ instancer 12 (writes 1 ("x" ∷ []))
    ∷ instancer 13 (deregisters 2)
    ∷ []

new_cache-IsIsolated : IsIsolated (new_cache [])
unfolding new_cache
new_cache-IsIsolated = record { own = tt; others = tt }

steps-IsOpen : IsOpen 1 steps
steps-IsOpen = (tt, (tt, (tt, (tt, (tt, ((λ e. omega (arith, e)), tt))))))

endpoints_follow_example :
    IsFor factory
      ("a" ∷ "c" ∷ [])
      (step factory
        (run factory (new_endpointer factory 0 options (new_cache []) 1) steps)
        (applies 14)).cache
unfolding run new_endpointer step Instances.step Instances.deregister Instances.state
    Instances.update Instances.register new_cache Instances.send Instances.broadcast
    Instances.copy_event sort member
endpoints_follow_example =
    endpoints_follow factory 0 14 options (new_cache []) 1 steps new_cache-IsIsolated steps-IsOpen
      refl (refl, (refl, tt))
