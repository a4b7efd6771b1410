-- ===== src/Lb/Retry/Attempts.antt =====
-- How many attempts sd/lb/retry.go makes, and what it returns after them.
use mathlib.Core.List.{append_assoc}
use native.Mathlib.Nat.{add-zero}
use yoroi.Prelude.{
  ℕ, zero, suc, ◌+◌, ◌≤◌, ◌<◌, ◌≡◌, ◌≢◌, refl, sym, ap, ◌∙◌, Option, List, [], ◌∷◌, ◌++◌, arith,
  length, lt→ltb,
}
use yoroi.Sd.Event.{Error}
use yoroi.Lb.Reply.{Picked}
use yoroi.Lb.Retry.{
  Answers, Heard, done, response, failure, panicked, returned, gave_up, running, max_retries, hear,
  rounds, retry,
}

module _ {ℓ} {R : Type ℓ} where
  -- From round `i` on, the attempts fail with these errors.
  abbrev pub Fails : (ℕ → Heard R) → ℕ → List Error → Type ℓ
  Fails heard i [] = Unit
  Fails heard i (e ∷ es) = (heard i ≡ failure e) × Fails heard (i + 1) es

  rounds-ne-running :
      (max : ℕ) (heard : ℕ → Heard R) (fuel i : ℕ) (raw : List Error)
      → 0 < fuel
      → max < i + fuel
      → rounds (max_retries max) heard fuel i raw ≢ running
  unfolding rounds max_retries
  rounds-ne-running max heard zero i raw pos enough = absurd (omega arith)
  rounds-ne-running max heard (suc fuel) i raw pos enough =
      go (λ e. rounds-ne-running max heard fuel (i + 1) (raw ++ e ∷ [])) (heard i) refl
    where
      go :
          ((e : Error)
            → 0 < fuel
            → max < i + 1 + fuel
            → rounds (max_retries max) heard fuel (i + 1) (raw ++ e ∷ []) ≢ running)
          → (h : Heard R) → heard i ≡ h
          → rounds (max_retries max) heard (suc fuel) i raw ≢ running
      go ih (done e) q = rw (q, rounds) (ground arith)
      go ih (response r) q = rw (q, rounds) (ground arith)
      go ih (failure e) q = rw (q, rounds) (ground (arith, ih e))
      go ih panicked q = rw (q, rounds) (ground arith)

  shift : (heard : ℕ → Heard R) (i n : ℕ) → heard (i + suc n) ≡ heard (i + 1 + n)
  shift heard i n = ap heard (omega arith)

  rounds_response :
      (max : ℕ) (heard : ℕ → Heard R) (es : List Error) (r : R) (fuel i : ℕ) (raw : List Error)
      → Fails heard i es
      → heard (i + length es) ≡ response r
      → i + length es ≤ max
      → length es < fuel
      → rounds (max_retries max) heard fuel i raw ≡ returned r
  unfolding rounds max_retries
  rounds_response max heard es r zero i raw h good fits enough = absurd (omega arith)
  rounds_response max heard [] r (suc fuel) i raw h good fits enough =
      rw (sym (ap heard (add-zero i)) ∙ good, rounds)
  rounds_response max heard (e ∷ es) r (suc fuel) i raw h good fits enough =
      let low : i + 1 + length es ≤ max = omega arith in
      rw (h.0, rounds, lt→ltb i max (omega arith))
        (rounds_response max heard es r fuel (i + 1) (raw ++ e ∷ []) h.1
          (sym (shift heard i (length es)) ∙ good) low (omega arith))

  rounds_exhausted :
      (max : ℕ) (heard : ℕ → Heard R) (es : List Error) (e : Error) (fuel i : ℕ) (raw : List Error)
      → Fails heard i es
      → heard (i + length es) ≡ failure e
      → i + length es ≡ max
      → length es < fuel
      → rounds (max_retries max) heard fuel i raw
        ≡ gave_up (record { raw_errors = raw ++ (es ++ e ∷ []); final = e })
  unfolding rounds max_retries
  rounds_exhausted max heard es e zero i raw h last at_max enough = absurd (omega arith)
  rounds_exhausted max heard [] e (suc fuel) i raw h last at_max enough =
      rw (sym (ap heard (add-zero i)) ∙ last, rounds) (ground arith)
  rounds_exhausted max heard (x ∷ es) e (suc fuel) i raw h last at_max enough =
      rw (h.0, rounds, lt→ltb i max (omega arith))
        (rounds_exhausted max heard es e fuel (i + 1) (raw ++ x ∷ []) h.1
            (sym (shift heard i (length es)) ∙ last) (omega arith) (omega arith)
          ∙ rw append_assoc)

module _ {ℓ} {R : Type ℓ} (max : ℕ) (expired : ℕ → Option Error) (b : ℕ → Picked (Answers R)) where
  -- `Retry` ends: with any balancer, endpoints and clock, it makes no more than `max` attempts, or
  -- one if `max` is 0.
  pub retry_ends : (fuel : ℕ) → 0 < fuel → max ≤ fuel → retry max expired b fuel ≢ running
  unfolding retry
  retry_ends fuel pos enough = rounds-ne-running max (hear expired b) fuel 1 [] pos (omega arith)

  -- If fewer than `max` attempts fail and the next one responds, the response is returned.
  pub retry_response :
      (es : List Error) (r : R) (fuel : ℕ)
      → Fails (hear expired b) 1 es
      → hear expired b (1 + length es) ≡ response r
      → length es < max
      → max ≤ fuel
      → retry max expired b fuel ≡ returned r
  unfolding retry
  retry_response es r fuel h good fits enough =
      rounds_response max (hear expired b) es r fuel 1 [] h good (omega arith) (omega arith)

  -- If the first `max` attempts fail, the error holds all their errors in order and ends with the
  -- last one.
  pub retry_exhausted :
      (es : List Error) (e : Error) (fuel : ℕ)
      → Fails (hear expired b) 1 es
      → hear expired b (1 + length es) ≡ failure e
      → 1 + length es ≡ max
      → max ≤ fuel
      → retry max expired b fuel ≡ gave_up (record { raw_errors = es ++ e ∷ []; final = e })
  unfolding retry
  retry_exhausted es e fuel h last at_max enough =
      rounds_exhausted max (hear expired b) es e fuel 1 [] h last at_max (omega arith)
