-- ===== src/Sd/InstanceCache/Tests.antt =====
-- The theorem about the cache of instances at concrete values.
use yoroi.Prelude.{◌≡◌, none, some, List, [], ◌∷◌}
use yoroi.Sd.InstanceCache.{Step, updates, reads, registers, deregisters, writes, new_cache, run}
use yoroi.Sd.InstanceCache.Updates.{view, seen}
use yoroi.Sd.InstanceCache.Isolation.{expected_run, view-run}

-- A receiver overwrites what it got.
abbrev steps : List Step
steps =
    registers 1
    ∷ updates (some ("b" ∷ "a" ∷ [])) none
    ∷ writes 0 ("x" ∷ [])
    ∷ reads
    ∷ updates (some ("a" ∷ "b" ∷ [])) none
    ∷ deregisters 1
    ∷ []

view-run_example : view (run (new_cache []) steps) ≡ expected_run (seen none none) steps
view-run_example = view-run [] steps
