-- ===== src/Lb/Retry.antt =====
-- sd/lb/retry.go. A round starts one attempt and waits for what comes first. What the balancer,
-- the endpoints and the clock do in a round is an argument of the model.
pub mod Attempts
use yoroi.Prelude.{
  ℕ, zero, suc, ◌+◌, Bool, true, Option, none, some, List, [], ◌∷◌, ◌++◌, ltb, not, if◌then◌else◌,
}
use yoroi.Sd.Event.{Error}
use yoroi.Lb.Reply.{Picked}

pub record RetryError : Type 0 where
  pub raw_errors : List Error
  pub final : Error

-- The attempt count and the error received, to whether to go on and a replacement.
abbrev pub Callback : Type 0
Callback = ℕ → Error → Bool × Option Error

pub max_retries : ℕ → Callback
max_retries max n err = (ltb n max, none)

pub always_retry : Callback
always_retry n err = (true, none)

-- What an endpoint returns for the request, by the round.
abbrev pub Answers {ℓ} : Type ℓ → Type ℓ
Answers R = ℕ → R × Option Error

-- What the `select` of a round receives; a nil endpoint with no error panics when called.
pub data Heard {ℓ} (R : Type ℓ) : Type ℓ where
  done : Error → Heard R
  response : R → Heard R
  failure : Error → Heard R
  panicked : Heard R

pub data Outcome {ℓ} (R : Type ℓ) : Type ℓ where
  returned : R → Outcome R
  cancelled : Error → Outcome R
  gave_up : RetryError → Outcome R
  crashed : Outcome R
  running : Outcome R

abbrev replaced : Error → Option Error → Error
replaced err none = err
replaced err (some replacement) = replacement

abbrev or_always : Option Callback → Callback
or_always none = always_retry
or_always (some cb) = cb

module _ {ℓ} {R : Type ℓ} where
  abbrev pub answer : R × Option Error → Heard R
  answer (r, none) = response r
  answer (r, some e) = failure e

  abbrev pub call_endpoint : ℕ → Option (Answers R) → Heard R
  call_endpoint i none = panicked
  call_endpoint i (some e) = answer (e i)

  -- The goroutine of a round.
  unfoldable pub attempt : (ℕ → Picked (Answers R)) → ℕ → Heard R
  attempt b i = elim (b i).err [ some e ↦ failure e | none ↦ call_endpoint i (b i).endpoint ]

  -- `expired i` is the error of the context, if it is done first in round `i`.
  unfoldable pub hear : (ℕ → Option Error) → (ℕ → Picked (Answers R)) → ℕ → Heard R
  unfolding attempt
  hear expired b i = elim (expired i) [ some e ↦ done e | none ↦ attempt b i ]

  -- The endless `for` takes fuel; `running` means that it ran out.
  pub rounds : Callback → (ℕ → Heard R) → ℕ → ℕ → List Error → Outcome R
  rounds cb heard zero i raw = running
  rounds cb heard (suc fuel) i raw = elim (heard i) [
    | done e ↦ cancelled e
    | response r ↦ returned r
    | panicked ↦ crashed
    | failure e ↦
        let rest = rounds cb heard fuel (i + 1) (raw ++ e ∷ []) in
        if not (cb i e).0
        then gave_up (record { raw_errors = raw ++ e ∷ []; final = replaced e (cb i e).1 })
        else rest
  ]

  pub retry_with_callback :
      (ℕ → Option Error) → (ℕ → Picked (Answers R)) → Option Callback → ℕ → Outcome R
  unfolding rounds hear always_retry
  retry_with_callback expired b cb fuel = rounds (or_always cb) (hear expired b) fuel 1 []

  pub retry : ℕ → (ℕ → Option Error) → (ℕ → Picked (Answers R)) → ℕ → Outcome R
  unfolding retry_with_callback max_retries
  retry max expired b fuel = retry_with_callback expired b (some (max_retries max)) fuel
