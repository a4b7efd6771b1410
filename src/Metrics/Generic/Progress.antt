-- ===== src/Metrics/Generic/Progress.antt =====
-- Why a compare-and-swap of metrics/generic/generic.go fails.
use yoroi.Prelude.{
  ℕ, ◌+◌, ◌≤◌, ◌<◌, ◌==◌, ==_iff, ◌≡◌, ◌⊎◌, refl, sym, ap, ◌∙◌, Bool-cases, inl, inr, false, none,
  some, List, [], ◌∷◌, arith, if◌then◌else◌,
}
use yoroi.Metrics.Generic.{
  Call, adds, resets, sets, reads, Done, added, was_reset, was_set, was_read, Thread, Step, load,
  thread_step, System, logged, applied, step, run,
}
use yoroi.Metrics.Generic.Atomic.{Effect, IsSmall, silent, effect, thread_step-IsSmall}

abbrev pub write_of : Done → ℕ
write_of (added delta) = 1
write_of (was_reset value) = 1
write_of (was_set value) = 1
write_of (was_read value) = 0

-- How many calls that write have returned.
abbrev pub writes : List (ℕ × Done) → ℕ
writes [] = 0
writes ((i, done) ∷ log) = write_of done + writes log

-- The calls with a loop: Add and ValueReset.
abbrev pub IsLoop : Call → Type 0
IsLoop (adds delta) = Unit
IsLoop resets = Unit
IsLoop (sets value) = ⊥
IsLoop reads = ⊥

-- The schedule does not run a goroutine.
abbrev pub IsWithout : ℕ → List ℕ → Type 0
IsWithout i [] = Unit
IsWithout i (j ∷ js) = ((j == i) ≡ false) × IsWithout i js

-- Writes are counted, and without one the value stays.
record IsLater (s s' : System) : Type 0 where
  counted : writes s.log ≤ writes s'.log
  unwritten : writes s'.log ≡ writes s.log → s'.bits ≡ s.bits

module _ (add_bits : ℕ → ℕ → ℕ) where
  effect_unwritten :
      (b b' : ℕ) (done : Done) → Effect add_bits b done b' → write_of done ≡ 0 → b' ≡ b
  effect_unwritten b b' (added delta) h e = absurd (omega arith)
  effect_unwritten b b' (was_reset value) h e = absurd (omega arith)
  effect_unwritten b b' (was_set value) h e = absurd (omega arith)
  effect_unwritten b b' (was_read value) h e = h.1

  applied-IsLater :
      (s : System) (i : ℕ) (t : Step)
      → IsSmall add_bits s.bits (s.threads i).calls t
      → IsLater s (applied s i t)
  applied-IsLater s i t (silent none_done same kept) =
      let e : writes (logged i t.done s.log) ≡ writes s.log =
        ap (λ d. writes (logged i d s.log)) none_done in
      record { counted = omega (arith, e); unwritten = λ h. same }
  applied-IsLater s i t (effect done is_done moved first) =
      let e : writes (logged i t.done s.log) ≡ write_of done + writes s.log =
        ap (λ d. writes (logged i d s.log)) is_done in
      record {
        counted = omega (arith, e);
        unwritten = λ h. effect_unwritten s.bits t.bits done moved (omega (arith, e, h));
      }

  run-IsLater : (s : System) (is : List ℕ) → IsLater s (run add_bits s is)
  unfolding run step
  run-IsLater s [] = record { counted = omega arith; unwritten = λ h. refl }
  run-IsLater s (i ∷ is) =
      let h =
        applied-IsLater s i _
          (thread_step-IsSmall add_bits s.bits (s.threads i).calls (s.threads i).old) in
      let k = run-IsLater (step add_bits s i) is in
      record {
        counted = omega (arith, h.counted, k.counted);
        unwritten = λ e.
            k.unwritten (omega (arith, e, h.counted, k.counted))
            ∙ h.unwritten (omega (arith, e, h.counted, k.counted));
      }

  threads-run :
      (s : System) (i : ℕ) (is : List ℕ)
      → IsWithout i is
      → (run add_bits s is).threads i ≡ s.threads i
  unfolding run step
  threads-run s i [] h = refl
  threads-run s i (j ∷ js) h =
      threads-run (step add_bits s j) i js h.1
      ∙ ap
          (λ b.
            if b
            then (thread_step add_bits s.bits (s.threads j).calls (s.threads j).old).thread
            else s.threads i)
          h.0

  own_thread : (s : System) (i : ℕ) (t : Step) → (applied s i t).threads i ≡ t.thread
  own_thread s i t = ap (λ b. if b then t.thread else s.threads i) ((==_iff i i).1 refl)

  start_try :
      (s : System) (i : ℕ) (c : Call) (next : List Call)
      → IsLoop c
      → thread_step add_bits s.bits (c ∷ next) none ≡ load s.bits (c ∷ next)
  start_try s i (adds delta) next h = refl
  start_try s i resets next h = refl
  start_try s i (sets value) next h = absurd h
  start_try s i reads next h = absurd h

  end_try :
      (bits old : ℕ) (c : Call) (next : List Call)
      → IsLoop c
      → bits ≡ old
      → (thread_step add_bits bits (c ∷ next) (some old)).thread.calls ≡ next
  end_try bits old (adds delta) next h e = ground (arith, e)
  end_try bits old resets next h e = ground (arith, e)
  end_try bits old (sets value) next h e = absurd h
  end_try bits old reads next h e = absurd h

  -- If a goroutine loads the value for an Add or a ValueReset, other goroutines then take any steps,
  -- and it tries to swap, then its call returns or one of the others has returned from a call that
  -- writes in between.
  pub retry_means_progress :
      (s : System) (i : ℕ) (others : List ℕ) (c : Call) (next : List Call)
      → IsLoop c
      → s.threads i ≡ record { calls = c ∷ next; old = none }
      → IsWithout i others
      → (((step add_bits (run add_bits (step add_bits s i) others) i).threads i).calls ≡ next)
        ⊎ (writes s.log < writes (run add_bits (step add_bits s i) others).log)
  unfolding step
  retry_means_progress s i others c next loop e without =
      let s1 = step add_bits s i in
      let s2 = run add_bits s1 others in
      let loaded : s1 ≡ applied s i (load s.bits (c ∷ next)) =
        ap (λ (t : Thread). applied s i (thread_step add_bits s.bits t.calls t.old)) e
        ∙ ap (applied s i) (start_try s i c next loop) in
      let bits1 : s1.bits ≡ s.bits = ap (λ x. x.bits) loaded in
      let log1 : writes s1.log ≡ writes s.log = ap (λ (x : System). writes x.log) loaded in
      let thread1 : s1.threads i ≡ record { calls = c ∷ next; old = some s.bits } =
        ap (λ (x : System). x.threads i) loaded ∙ own_thread s i (load s.bits (c ∷ next)) in
      let thread2 : s2.threads i ≡ record { calls = c ∷ next; old = some s.bits } =
        threads-run s1 i others without ∙ thread1 in
      let later = run-IsLater s1 others in
      elim (Bool-cases (writes s2.log == writes s.log)) [
        | inl same ↦
            let bits2 : s2.bits ≡ s.bits =
              later.unwritten ((==_iff (writes s2.log) (writes s.log)).0 same ∙ sym log1) ∙ bits1 in
            inl (
              ap (λ (t : Thread). t.calls)
                (own_thread s2 i
                  (thread_step add_bits s2.bits (s2.threads i).calls (s2.threads i).old))
              ∙ ap (λ (t : Thread). (thread_step add_bits s2.bits t.calls t.old).thread.calls)
                  thread2
              ∙ end_try s2.bits s.bits c next loop bits2)
        | inr differ ↦
            inr (ground (arith, later.counted, log1, ==_iff (writes s2.log) (writes s.log)))
      ]
