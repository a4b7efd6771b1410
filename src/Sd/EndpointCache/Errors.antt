-- ===== src/Sd/EndpointCache/Errors.antt =====
-- How sd/endpoint_cache.go answers while the discovery system fails.
use yoroi.Prelude.{
  ℕ, ◌+◌, ◌<◌, String, ◌≡◌, refl, ◌∙◌, Option, none, some, List, [], ◌∷◌, Bool, true, false, arith,
  ltb, if◌then◌else◌, sort,
}
use yoroi.Sd.Event.{Event, Error, items}
use yoroi.Sd.EndpointCache.{
  EndpointerOptions, Factory, EndpointCache, Step, updates, invalidates, new_endpoint_cache, update,
  collect, endpoints_shared, endpoints_exclusive, step, run,
}

-- Every step but a good update.
abbrev pub is_bad : Step → Bool
is_bad (updates now event) = elim event.err [ none ↦ false | some e ↦ true ]
is_bad (invalidates now) = true

abbrev pub AllBad : List Step → Type 0
AllBad [] = Unit
AllBad (x ∷ xs) = (is_bad x ≡ true) × AllBad xs

abbrev pub time : Step → ℕ
time (updates now event) = now
time (invalidates now) = now

abbrev pub AllBefore : ℕ → List Step → Type 0
AllBefore d [] = Unit
AllBefore d (x ∷ xs) = (time x < d) × AllBefore d xs

module _ {ℓ} {P : Type ℓ} (factory : Factory P) where
  -- The error of the answer of `Endpoints` at a time.
  abbrev pub error_at : ℕ → EndpointCache P → Option Error
  error_at now c = (endpoints_exclusive factory now c).1.1

  abbrev pub answer_at : ℕ → EndpointCache P → List P
  answer_at now c = (endpoints_exclusive factory now c).1.0

  step_tolerant :
      (c : EndpointCache P) (x : Step)
      → c.options.invalidate_on_error ≡ false
      → c.err ≡ none
      → ((step factory c x).options.invalidate_on_error ≡ false) × ((step factory c x).err ≡ none)
  unfolding step update endpoints_exclusive
  step_tolerant c (updates now event) o e = ground arith
  step_tolerant c (invalidates now) o e = ground arith

  run_tolerant :
      (c : EndpointCache P) (xs : List Step)
      → c.options.invalidate_on_error ≡ false
      → c.err ≡ none
      → (run factory c xs).err ≡ none
  unfolding run
  run_tolerant c [] o e = e
  run_tolerant c (x ∷ xs) o e =
      let kept = step_tolerant c x o e in run_tolerant (step factory c x) xs kept.0 kept.1

  -- Without the option `InvalidateOnError`, `Endpoints` answers with the endpoints that are held
  -- and with no error, after any events and at any time, and never needs the exclusive lock.
  pub tolerant_never_fails :
      (options : EndpointerOptions) (xs : List Step) (now : ℕ)
      → options.invalidate_on_error ≡ false
      → let c = run factory (new_endpoint_cache options) xs in
        endpoints_shared now c ≡ some (c.endpoints, none)
  unfolding endpoints_shared new_endpoint_cache
  tolerant_never_fails options xs now o = rw (run_tolerant (new_endpoint_cache options) xs o refl)

  record Failing (e : Error) (d : ℕ) (c : EndpointCache P) : Type ℓ where
    error : c.err ≡ some e
    deadline : c.invalidate_deadline ≡ d

  step-Failing :
      (e : Error) (d : ℕ) (c : EndpointCache P) (x : Step)
      → is_bad x ≡ true
      → Failing e d c
      → Failing e d (step factory c x)
  unfolding step update endpoints_exclusive
  step-Failing e d c (updates now event) b f = record {
    error = ground (arith, f.error);
    deadline = ground (arith, f.error, f.deadline);
  }
  step-Failing e d c (invalidates now) b f = record {
    error = ground (arith, f.error);
    deadline = ground (arith, f.error, f.deadline);
  }

  run-Failing :
      (e : Error) (d : ℕ) (c : EndpointCache P) (xs : List Step)
      → AllBad xs
      → Failing e d c
      → Failing e d (run factory c xs)
  unfolding run
  run-Failing e d c [] b f = f
  run-Failing e d c (x ∷ xs) b f =
      run-Failing e d (step factory c x) xs b.1 (step-Failing e d c x b.0 f)

  step_before :
      (e : Error) (d : ℕ) (c : EndpointCache P) (x : Step)
      → is_bad x ≡ true
      → time x < d
      → Failing e d c
      → (step factory c x).endpoints ≡ c.endpoints
  unfolding step update endpoints_exclusive
  step_before e d c (updates now event) b h f = ground (arith, f.error, f.deadline)
  step_before e d c (invalidates now) b h f = ground (arith, f.error, f.deadline)

  run_before :
      (e : Error) (d : ℕ) (c : EndpointCache P) (xs : List Step)
      → AllBad xs
      → AllBefore d xs
      → Failing e d c
      → (run factory c xs).endpoints ≡ c.endpoints
  unfolding run
  run_before e d c [] b h f = refl
  run_before e d c (x ∷ xs) b h f =
      run_before e d (step factory c x) xs b.1 h.1 (step-Failing e d c x b.0 f)
      ∙ step_before e d c x b.0 h.0 f

  module _ (c : EndpointCache P) (t : ℕ) (is : Option (List String)) (e : Error) where
    abbrev failure : Event
    failure = record { instances = is; err = some e }

    update-Failing :
        c.options.invalidate_on_error ≡ true
        → c.err ≡ none
        → Failing e (t + c.options.invalidate_timeout) (update factory t c failure)
    unfolding update
    update-Failing o h = record { error = ground arith; deadline = ground arith }

    endpoints-update :
        c.options.invalidate_on_error ≡ true → (update factory t c failure).endpoints ≡ c.endpoints
    unfolding update
    endpoints-update o = ground arith

    -- With the option `InvalidateOnError`, from a failure at time `t` in a healthy state on, until
    -- the next good update, `Endpoints` returns no error before `t` plus the timeout and
    -- that first error from then on.
    pub error_after_deadline :
        (xs : List Step) (now : ℕ)
        → c.options.invalidate_on_error ≡ true
        → c.err ≡ none
        → AllBad xs
        → error_at now (run factory (update factory t c failure) xs)
          ≡ (if ltb now (t + c.options.invalidate_timeout) then none else some e)
    unfolding endpoints_exclusive
    error_after_deadline xs now o h b =
        let f = run-Failing e _ (update factory t c failure) xs b (update-Failing o h) in
        ground (arith, f.error, f.deadline)

    -- While the deadline has not come, failures and calls leave the endpoints as they were, and
    -- `Endpoints` returns them; from the deadline on it returns none.
    pub answer_until_deadline :
        (xs : List Step) (now : ℕ)
        → c.options.invalidate_on_error ≡ true
        → c.err ≡ none
        → AllBad xs
        → AllBefore (t + c.options.invalidate_timeout) xs
        → answer_at now (run factory (update factory t c failure) xs)
          ≡ (if ltb now (t + c.options.invalidate_timeout) then c.endpoints else [])
    unfolding endpoints_exclusive
    answer_until_deadline xs now o h b q =
        let f = run-Failing e _ (update factory t c failure) xs b (update-Failing o h) in
        let kept = run_before e _ (update factory t c failure) xs b q (update-Failing o h) in
        ground (arith, f.error, f.deadline, kept, endpoints-update o)

  -- A good update ends the failure: until the next event `Endpoints` returns the new endpoints at
  -- once, whatever the time and the state before.
  pub good_update_recovers :
      (c : EndpointCache P) (t : ℕ) (is : Option (List String)) (now : ℕ)
      → let c' = update factory t c (record { instances = is; err = none }) in
        endpoints_shared now c' ≡ some (collect c'.cache (sort (items is)), none)
  unfolding update endpoints_shared
  good_update_recovers c t is now = refl
