-- ===== src/Metrics/Generic/Tests.antt =====
-- The theorems about metrics/generic/generic.go at concrete goroutines.
use yoroi.Prelude.{ℕ, zero, suc, ◌+◌, ◌≡◌, refl, List, [], ◌∷◌, none}
use yoroi.Metrics.Generic.{Call, adds, resets, sets, reads, System, run}
use yoroi.Metrics.Generic.Atomic.{Sequential, performed, linearizable}

abbrev plus : ℕ → ℕ → ℕ
plus x y = x + y

-- Goroutine 0 adds, goroutine 1 adds and reads, and the others set, add and reset.
abbrev calls_of : ℕ → List Call
calls_of zero = adds 5 ∷ []
calls_of (suc zero) = adds 7 ∷ reads ∷ []
calls_of (suc (suc i)) = sets 2 ∷ adds 3 ∷ resets ∷ []

abbrev system : System
system = record { bits = 1; threads = λ i. record { calls = calls_of i; old = none }; log = [] }

-- Goroutine 1 adds between the two steps of goroutine 0, which must try again.
abbrev schedule : List ℕ
schedule = 0 ∷ 1 ∷ 1 ∷ 0 ∷ 2 ∷ 0 ∷ 0 ∷ 1 ∷ []

linearizable_example :
    Sequential plus 1 (run plus system schedule).log (run plus system schedule).bits
    × ((i : ℕ)
        → performed plus i
            (run plus system schedule).log
            ((run plus system schedule).threads i).calls
          ≡ calls_of i)
linearizable_example = linearizable plus system schedule refl
