-- ===== src/Metrics/Generic/Atomic.antt =====
-- Calls of metrics/generic/generic.go take effect at once, in the order in which they return.
use yoroi.Prelude.{
  ℕ, ◌==◌, ==_iff, ◌≡◌, refl, sym, ap, subst, ◌∙◌, if_either, Bool-cases, inl, inr, Option, none,
  some, List, [], ◌∷◌, if◌then◌else◌,
}
use yoroi.Metrics.Generic.{
  Call, adds, resets, sets, reads, Done, added, was_reset, was_set, was_read, Step,
  compare_and_swap, thread_step, System, logged, applied, step, run,
}

module _ (add_bits : ℕ → ℕ → ℕ) where
  -- What a call does to a value that no other call touches, and what it returns.
  abbrev pub Effect : ℕ → Done → ℕ → Type 0
  Effect before (added delta) after = after ≡ add_bits before delta
  Effect before (was_reset value) after = (value ≡ before) × (after ≡ 0)
  Effect before (was_set value) after = after ≡ value
  Effect before (was_read value) after = (value ≡ before) × (after ≡ before)

  -- The calls of the log, one after another, lead from the first value to the last.
  abbrev pub Sequential : ℕ → List (ℕ × Done) → ℕ → Type 0
  Sequential first [] last = last ≡ first
  Sequential first ((i, done) ∷ log) last =
      (before : ℕ) × Sequential first log before × Effect before done last

  abbrev pub call_of : Done → Call
  call_of (added delta) = adds delta
  call_of (was_reset value) = resets
  call_of (was_set value) = sets value
  call_of (was_read value) = reads

  -- The calls of a goroutine in the log, in its order, before further ones.
  abbrev pub performed : ℕ → List (ℕ × Done) → List Call → List Call
  performed i [] rest = rest
  performed i ((j, done) ∷ log) rest =
      performed i log (if j == i then call_of done ∷ rest else rest)

  -- A step is silent, or an effect of the first call of the goroutine.
  pub data IsSmall (bits : ℕ) (calls : List Call) (t : Step) : Type 0 where
    silent : t.done ≡ none → t.bits ≡ bits → t.thread.calls ≡ calls → IsSmall bits calls t
    effect :
        (done : Done)
        → t.done ≡ some done
        → Effect bits done t.bits
        → calls ≡ call_of done ∷ t.thread.calls
        → IsSmall bits calls t

  swap-IsSmall :
      (bits old new : ℕ) (now next : List Call) (done : Done)
      → now ≡ call_of done ∷ next
      → (bits ≡ old → Effect bits done new)
      → IsSmall bits now (compare_and_swap bits old new now next done)
  swap-IsSmall bits old new now next done e h =
      if_either (IsSmall bits now) (bits == old) _ _
        (λ same. effect done refl (h ((==_iff bits old).0 same)) e)
        (λ differ. silent refl refl refl)

  pub thread_step-IsSmall :
      (bits : ℕ) (calls : List Call) (old : Option ℕ)
      → IsSmall bits calls (thread_step add_bits bits calls old)
  thread_step-IsSmall bits [] old = silent refl refl refl
  thread_step-IsSmall bits (adds delta ∷ next) none = silent refl refl refl
  thread_step-IsSmall bits (adds delta ∷ next) (some old) =
      swap-IsSmall bits old (add_bits old delta) (adds delta ∷ next) next (added delta) refl
        (λ e. ap (λ b. add_bits b delta) (sym e))
  thread_step-IsSmall bits (resets ∷ next) none = silent refl refl refl
  thread_step-IsSmall bits (resets ∷ next) (some old) =
      swap-IsSmall bits old 0 (resets ∷ next) next (was_reset old) refl (λ e. (sym e, refl))
  thread_step-IsSmall bits (sets value ∷ next) old = effect (was_set value) refl refl refl
  thread_step-IsSmall bits (reads ∷ next) old = effect (was_read bits) refl (refl, refl) refl

  record IsExplained (start s : System) : Type 0 where
    values : Sequential start.bits s.log s.bits
    order : (i : ℕ) → performed i s.log (s.threads i).calls ≡ (start.threads i).calls

  threads_silent :
      (i j : ℕ) (s : System) (t : Step)
      → t.thread.calls ≡ (s.threads i).calls
      → ((applied s i t).threads j).calls ≡ (s.threads j).calls
  threads_silent i j s t e =
      if_either (λ u. u.calls ≡ (s.threads j).calls) (i == j) t.thread (s.threads j)
        (λ same. e ∙ ap (λ k. (s.threads k).calls) ((==_iff i j).0 same)) (λ differ. refl)

  -- The call that returns moves from the goroutine into the log.
  threads_effect :
      (i j : ℕ) (s : System) (t : Step) (done : Done)
      → (s.threads i).calls ≡ call_of done ∷ t.thread.calls
      → performed j ((i, done) ∷ s.log) ((applied s i t).threads j).calls
        ≡ performed j s.log (s.threads j).calls
  threads_effect i j s t done e = elim (Bool-cases (i == j)) [
    | inl same ↦
        ap
          (λ b. performed j s.log (
            if b
            then call_of done ∷ (if b then t.thread else s.threads j).calls
            else (if b then t.thread else s.threads j).calls))
          same
        ∙ ap (performed j s.log) (sym e ∙ ap (λ k. (s.threads k).calls) ((==_iff i j).0 same))
    | inr differ ↦
        ap
          (λ b. performed j s.log (
            if b
            then call_of done ∷ (if b then t.thread else s.threads j).calls
            else (if b then t.thread else s.threads j).calls))
          differ
  ]

  applied-IsExplained :
      (start s : System) (i : ℕ) (t : Step)
      → IsSmall s.bits (s.threads i).calls t
      → IsExplained start s
      → IsExplained start (applied s i t)
  applied-IsExplained start s i t (silent none_done same kept) h = record {
    values =
        subst (λ d. Sequential start.bits (logged i d s.log) t.bits) (sym none_done)
          (subst (Sequential start.bits s.log) (sym same) h.values);
    order = λ j.
        ap (λ d. performed j (logged i d s.log) ((applied s i t).threads j).calls) none_done
        ∙ ap (performed j s.log) (threads_silent i j s t kept)
        ∙ h.order j;
  }
  applied-IsExplained start s i t (effect done is_done moved first) h = record {
    values =
        subst (λ d. Sequential start.bits (logged i d s.log) t.bits) (sym is_done)
          (s.bits, h.values, moved);
    order = λ j.
        ap (λ d. performed j (logged i d s.log) ((applied s i t).threads j).calls) is_done
        ∙ threads_effect i j s t done first
        ∙ h.order j;
  }

  run-IsExplained :
      (start s : System) (schedule : List ℕ)
      → IsExplained start s
      → IsExplained start (run add_bits s schedule)
  unfolding run step
  run-IsExplained start s [] h = h
  run-IsExplained start s (i ∷ is) h = run-IsExplained start (step add_bits s i) is (
      applied-IsExplained start s i _
        (thread_step-IsSmall s.bits (s.threads i).calls (s.threads i).old) h)

  -- Under any schedule of the atomic steps, the value is the one that the calls that have returned
  -- give when they are made one after another in the order in which they returned, each of them
  -- returned what it returns there, and every goroutine has made its calls in their order.
  pub linearizable :
      (start : System) (schedule : List ℕ)
      → start.log ≡ []
      → Sequential start.bits (run add_bits start schedule).log (run add_bits start schedule).bits
        × ((i : ℕ)
            → performed i
                (run add_bits start schedule).log
                ((run add_bits start schedule).threads i).calls
              ≡ (start.threads i).calls)
  linearizable start schedule e =
      let h = run-IsExplained start start schedule (record {
        values = subst (λ log. Sequential start.bits log start.bits) (sym e) refl;
        order = λ i. ap (λ log. performed i log (start.threads i).calls) e;
      }) in
      (h.values, h.order)
