-- ===== src/Metrics/Cloudwatch2/Tests.antt =====
-- The theorems about Send of metrics/cloudwatch2/cloudwatch2.go at concrete events.
use yoroi.Prelude.{ℕ, zero, suc, ◌+◌, ◌≤◌, ◌≡◌, arith, some, List, [], ◌∷◌, Bool, length}
use yoroi.Metrics.Cloudwatch2.{Event, acquires, answers, run, start}
use yoroi.Metrics.Cloudwatch2.Batches.{count, total, IsSmall}
use yoroi.Metrics.Cloudwatch2.Deliveries.{IsReturned, rest_of, delivered_once, send_can_return}

abbrev numbers : ℕ → List ℕ
numbers zero = []
numbers (suc n) = n ∷ numbers n

-- Forty-five datums make three batches; with two places the third request waits for the second to fail.
abbrev events : List Event
events = acquires 0 ∷ acquires 1 ∷ acquires 0 ∷ answers 1 (some "throttled") ∷ acquires 0 ∷ []

delivered_once_example :
    ((p : ℕ → Bool)
      → total p (run (start 2 (numbers 45)) events).put
          + total p (run (start 2 (numbers 45)) events).waiting
        ≡ count p (numbers 45))
    × IsSmall (run (start 2 (numbers 45)) events).put
    × (length (run (start 2 (numbers 45)) events).running ≤ 2)
delivered_once_example = delivered_once 2 (numbers 45) events

send_can_return_example : IsReturned (
    run (run (start 2 (numbers 45)) events) (
      rest_of
        (run (start 2 (numbers 45)) events).running
        (run (start 2 (numbers 45)) events).waiting))
send_can_return_example = send_can_return 2 (numbers 45) events (omega arith)
