-- ===== src/Lb/Tests.antt =====
-- The theorems about sd/lb at inputs that meet their hypotheses.
use yoroi.Prelude.{ℕ, String, ◌≡◌, ◌≢◌, refl, Option, none, some, List, [], ◌∷◌, arith, get_elem?}
use yoroi.Sd.Event.{Error}
use yoroi.Lb.Reply.{Picked}
use yoroi.Lb.RoundRobin.{calls}
use yoroi.Lb.RoundRobin.Rotation.{good, pick, one_round}
use yoroi.Lb.Retry.{Answers, returned, gave_up, running, hear, attempt, retry}
use yoroi.Lb.Retry.Attempts.{retry_ends, retry_response, retry_exhausted}

abbrev three : List ℕ
three = 10 ∷ 20 ∷ 30 ∷ []

one_round_example :
    calls 3 (record { c = 4 }) (good three) ≡ (record { c = 7 }, pick 20 ∷ pick 30 ∷ pick 10 ∷ [])
one_round_example = one_round three 4 (omega arith) (omega arith)

abbrev never : ℕ → Option Error
never i = none

-- The endpoint answers in the third round.
abbrev third : Answers ℕ
third i = elim (get_elem? {A = String} ("x" ∷ "y" ∷ "z" ∷ []) i) [
  | none ↦ (7, none)
  | some e ↦ (0, some e)
]

abbrev balancer : ℕ → Picked (Answers ℕ)
balancer i = record { endpoint = some third; err = none }

retry_ends_example : retry 2 never balancer 2 ≢ running
retry_ends_example = retry_ends 2 never balancer 2 (omega arith) (omega arith)

retry_response_example : retry 3 never balancer 3 ≡ returned 7
unfolding hear attempt
retry_response_example =
    retry_response 3 never balancer ("y" ∷ "z" ∷ []) 7 3 (refl, (refl, tt)) refl (omega arith)
      (omega arith)

retry_exhausted_example :
    retry 2 never balancer 5 ≡ gave_up (record { raw_errors = "y" ∷ "z" ∷ []; final = "z" })
unfolding hear attempt
retry_exhausted_example =
    retry_exhausted 2 never balancer ("y" ∷ []) "z" 5 (refl, tt) refl (omega arith) (omega arith)
