-- ===== src/Sd/EndpointCache/Tests.antt =====
-- Runs of sd/endpoint_cache.go, and its theorems at inputs that meet their hypotheses.
use yoroi.Prelude.{
  ℕ, ◌+◌, String, ◌≡◌, refl, true, false, none, some, List, [], ◌∷◌, length, arith, lookup, insert,
  remove, member, sort, if◌then◌else◌,
}
use yoroi.Sd.Event.{Event}
use yoroi.Sd.EndpointCache.{
  called, EndpointCloser, EndpointerOptions, made, failed, Factory, EndpointCache, Step, updates,
  new_endpoint_cache, take_instance, produce, close_all, collect, update_cache, update,
  endpoints_exclusive, run,
}
use yoroi.Sd.EndpointCache.Balance.{live, opens, closes, closers_accounted}
use yoroi.Sd.EndpointCache.Contents.{Follows, cache-update_cache}
use yoroi.Sd.EndpointCache.Errors.{answer_at, answer_until_deadline}
use yoroi.Sd.EndpointCache.Closing.{all_closed_after_deadline, duplicate_leaks}

-- The handle of a closer is the number of effects before it; the instance "bad" fails.
abbrev numbered : Factory String
numbered t i =
    if member i ("bad" ∷ [])
    then failed "refused"
    else made (record { endpoint = i; closer = some (length t) })

abbrev strict : EndpointerOptions
strict = record { invalidate_on_error = true; invalidate_timeout = 10 }

abbrev lenient : EndpointerOptions
lenient = record { invalidate_on_error = false; invalidate_timeout = 0 }

abbrev good : List String → Event
good is = record { instances = some is; err = none }

abbrev broken : Event
broken = record { instances = none; err = some "down" }

abbrev history : List Step
history =
    updates 0 (good ("b" ∷ "a" ∷ []))
    ∷ updates 1 (good ("c" ∷ "bad" ∷ "a" ∷ []))
    ∷ updates 5 broken
    ∷ updates 7 broken
    ∷ []

sorted_endpoints : (run numbered (new_endpoint_cache strict) history).endpoints ≡ "a" ∷ "c" ∷ []
unfolding run new_endpoint_cache update_cache update produce take_instance collect close_all sort
    insert remove lookup member
sorted_endpoints = refl

closed_b : closes 1 (run numbered (new_endpoint_cache strict) history).trace ≡ 1
unfolding run new_endpoint_cache update_cache update produce take_instance collect close_all sort
    insert remove lookup member
closed_b = refl

closers_accounted_example :
    opens 0 (run numbered (new_endpoint_cache strict) history).trace
    ≡ closes 0 (run numbered (new_endpoint_cache strict) history).trace
      + live 0 (run numbered (new_endpoint_cache strict) history).cache
unfolding member
closers_accounted_example =
    closers_accounted numbered 0 strict history
      ((refl, (refl, tt)), ((refl, (refl, (refl, tt))), (tt, (tt, tt))))

cache-update_cache_example :
    Follows numbered "a"
      (member "a" ("a" ∷ "c" ∷ []))
      (lookup "a" (new_endpoint_cache {P = String} strict).cache)
      (lookup "a" (update_cache numbered (new_endpoint_cache strict) ("a" ∷ "c" ∷ [])).cache)
unfolding member
cache-update_cache_example =
    cache-update_cache numbered (new_endpoint_cache strict) ("a" ∷ "c" ∷ []) (refl, (refl, tt)) "a"

answer_until_deadline_example :
    answer_at numbered 14
      (run numbered (update numbered 5 (new_endpoint_cache strict) broken) (updates 7 broken ∷ []))
    ≡ []
unfolding new_endpoint_cache
answer_until_deadline_example =
    answer_until_deadline numbered (new_endpoint_cache strict) 5 none "down" (updates 7 broken ∷ [])
      14 refl refl (refl, tt) (omega arith, tt)

all_closed_after_deadline_example :
    (opens 1
        (endpoints_exclusive numbered 15 (run numbered (new_endpoint_cache strict) history)).0.trace
      ≡ closes 1
          (endpoints_exclusive numbered 15
            (run numbered (new_endpoint_cache strict) history)).0.trace)
    × (live 1
          (endpoints_exclusive numbered 15
            (run numbered (new_endpoint_cache strict) history)).0.cache
        ≡ 0)
unfolding run new_endpoint_cache update member
all_closed_after_deadline_example =
    all_closed_after_deadline numbered strict history 15 1 "down"
      ((refl, (refl, tt)), ((refl, (refl, (refl, tt))), (tt, (tt, tt)))) refl (omega arith)

abbrev entry : ℕ → EndpointCloser String
entry n = record { endpoint = "a"; closer = some n }

abbrev before : List Step
before = updates 0 (good ("a" ∷ [])) ∷ []

abbrev holding : EndpointCache String
holding = run numbered (new_endpoint_cache strict) before

abbrev leaking : EndpointCache String
leaking = update numbered 1 holding (good ("a" ∷ "a" ∷ []))

duplicate_leaks_example :
    (opens 0 leaking.trace ≡ closes 0 leaking.trace + live 0 leaking.cache + 1)
    × (leaking.cache ≡ ("a", entry 1) ∷ [])
    × (leaking.trace
        ≡ close_all (remove "a" holding.cache) (called "a" (made (entry 1)) ∷ holding.trace))
unfolding run new_endpoint_cache update update_cache produce take_instance sort insert remove lookup
    member close_all
duplicate_leaks_example =
    duplicate_leaks numbered strict before "a" (entry 0) (entry 1) 0 1 ((refl, tt), tt) refl refl
