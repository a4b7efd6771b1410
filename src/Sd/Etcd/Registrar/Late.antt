-- ===== src/Sd/Etcd/Registrar/Late.antt =====
-- A loop of sd/etcd/registrar.go that is not in its select while Deregister closes the channel.
use yoroi.Prelude.{
  ℕ, zero, suc, ◌+◌, ◌-◌, ◌<◌, ◌≡◌, inl, inr, refl, sym, ap, subst, ◌∙◌, Option, none, some, List,
  [], ◌∷◌, true, false, ◌&&◌, not, ltb, arith, if◌then◌else◌, length, Bool-cases,
}
use yoroi.Sd.Etcd.Registrar.{
  Registrar, registered, Event, registers, starts, selects, ticks, beats, stops, deregisters,
  closes, lock_and_make, select_at, remove_at, tick, stop, close_quit, step, run,
}

-- All selects wait for the nil channel.
abbrev pub IsNil : List (Option ℕ) → Type 0
IsNil [] = Unit
IsNil (none ∷ cs) = IsNil cs
IsNil (some c ∷ cs) = ⊥

-- How many loops run.
abbrev pub loops : Registrar → ℕ
loops r = r.ready + length r.selecting + r.beating

-- No channel is there any more, and no goroutine is about to make one.
pub record IsAbandoned (n : ℕ) (r : Registrar) : Type 0 where
  pub quit : r.quit ≡ none
  pub starting : r.starting ≡ 0
  pub selecting : IsNil r.selecting
  pub running : loops r ≡ n

-- The events in which Register is not called.
abbrev pub IsQuiet : List Event → Type 0
IsQuiet [] = Unit
IsQuiet (registers ∷ es) = ⊥
IsQuiet (e ∷ es) = IsQuiet es

remove_at-IsNil : (cs : List (Option ℕ)) (i : ℕ) → IsNil cs → IsNil (remove_at cs i)
remove_at-IsNil [] i h = h
remove_at-IsNil (none ∷ cs) zero h = h
remove_at-IsNil (none ∷ cs) (suc i) h = remove_at-IsNil cs i h
remove_at-IsNil (some c ∷ cs) i h = absurd h

length-remove_at :
    (cs : List (Option ℕ)) (i : ℕ) (c : Option ℕ)
    → select_at cs i ≡ some c
    → length (remove_at cs i) + 1 ≡ length cs
length-remove_at [] i c h = cc
length-remove_at (x ∷ cs) zero c h = omega arith
length-remove_at (x ∷ cs) (suc i) c h = omega (arith, length-remove_at cs i c h)

select_at-IsNil :
    (cs : List (Option ℕ)) (i : ℕ) (c : Option ℕ) → IsNil cs → select_at cs i ≡ some c → c ≡ none
select_at-IsNil [] i c h e = cc
select_at-IsNil (none ∷ cs) zero c h e = cc
select_at-IsNil (none ∷ cs) (suc i) c h e = select_at-IsNil cs i c h e
select_at-IsNil (some x ∷ cs) i c h e = absurd h

module _ (n : ℕ) where
  tick-IsAbandoned :
      (r : Registrar) (i : ℕ) (o : Option (Option ℕ))
      → select_at r.selecting i ≡ o
      → IsAbandoned n r
      → IsAbandoned n (tick r i o)
  tick-IsAbandoned r i none e h = h
  tick-IsAbandoned r i (some c) e h =
      let k = length-remove_at r.selecting i c e in
      record {
        quit = h.quit;
        starting = h.starting;
        selecting = remove_at-IsNil r.selecting i h.selecting;
        running = omega (arith, k, h.running);
      }

  stop-IsAbandoned :
      (r : Registrar) (i : ℕ) (o : Option (Option ℕ))
      → select_at r.selecting i ≡ o
      → IsAbandoned n r
      → IsAbandoned n (stop r i o)
  stop-IsAbandoned r i none e h = h
  stop-IsAbandoned r i (some none) e h = h
  stop-IsAbandoned r i (some (some c)) e h =
      absurd (cc (select_at-IsNil r.selecting i (some c) h.selecting e))

  step-IsAbandoned :
      (r : Registrar) (e : Event) → IsQuiet (e ∷ []) → IsAbandoned n r → IsAbandoned n (step r e)
  unfolding step
  step-IsAbandoned r registers q h = absurd q
  step-IsAbandoned r starts q h =
      let e : (not r.locked && ltb 0 r.starting) ≡ false = ground (arith, h.starting) in
      subst (λ b. IsAbandoned n (if b then lock_and_make r r.quit else r)) (sym e) h
  step-IsAbandoned r selects q h = elim (Bool-cases (ltb 0 r.ready)) [
    | inl e ↦
        let r' = record r { ready = r.ready - 1; selecting = r.quit ∷ r.selecting } in
        subst (λ b. IsAbandoned n (if b then r' else r)) (sym e)
          (record {
            quit = h.quit;
            starting = h.starting;
            selecting = subst (λ c. IsNil (c ∷ r.selecting)) (sym h.quit) h.selecting;
            running = ground (arith, e, h.running);
          })
    | inr e ↦
        let r' = record r { ready = r.ready - 1; selecting = r.quit ∷ r.selecting } in
        subst (λ b. IsAbandoned n (if b then r' else r)) (sym e) h
  ]
  step-IsAbandoned r (ticks i) q h = tick-IsAbandoned r i (select_at r.selecting i) refl h
  step-IsAbandoned r beats q h = elim (Bool-cases (ltb 0 r.beating)) [
    | inl e ↦
        let r' = record r { beating = r.beating - 1; ready = r.ready + 1 } in
        subst (λ b. IsAbandoned n (if b then r' else r)) (sym e)
          (record {
            quit = h.quit;
            starting = h.starting;
            selecting = h.selecting;
            running = ground (arith, e, h.running);
          })
    | inr e ↦
        let r' = record r { beating = r.beating - 1; ready = r.ready + 1 } in
        subst (λ b. IsAbandoned n (if b then r' else r)) (sym e) h
  ]
  step-IsAbandoned r (stops i) q h = stop-IsAbandoned r i (select_at r.selecting i) refl h
  step-IsAbandoned r deregisters q h = record {
    quit = h.quit;
    starting = h.starting;
    selecting = h.selecting;
    running = h.running;
  }
  step-IsAbandoned r closes q h =
      let after = λ (o : Option ℕ). if not r.locked && ltb 0 r.closing then close_quit r o else r in
      subst (λ o. IsAbandoned n (after o)) (sym h.quit)
        (elim (Bool-cases (not r.locked && ltb 0 r.closing)) [
          | inl e ↦
              subst (λ b. IsAbandoned n (if b then close_quit r none else r)) (sym e)
                (record {
                  quit = h.quit;
                  starting = h.starting;
                  selecting = h.selecting;
                  running = h.running;
                })
          | inr e ↦ subst (λ b. IsAbandoned n (if b then close_quit r none else r)) (sym e) h
        ])

  IsQuiet-parts : (e : Event) (es : List Event) → IsQuiet (e ∷ es) → IsQuiet (e ∷ []) × IsQuiet es
  IsQuiet-parts registers es h = absurd h
  IsQuiet-parts starts es h = (tt, h)
  IsQuiet-parts selects es h = (tt, h)
  IsQuiet-parts (ticks i) es h = (tt, h)
  IsQuiet-parts beats es h = (tt, h)
  IsQuiet-parts (stops i) es h = (tt, h)
  IsQuiet-parts deregisters es h = (tt, h)
  IsQuiet-parts closes es h = (tt, h)

  run-IsAbandoned :
      (r : Registrar) (es : List Event) → IsQuiet es → IsAbandoned n r → IsAbandoned n (run r es)
  unfolding run
  run-IsAbandoned r [] q h = h
  run-IsAbandoned r (e ∷ es) q h =
      let parts = IsQuiet-parts e es q in
      run-IsAbandoned (step r e) es parts.1 (step-IsAbandoned r e parts.0 h)

-- Events without a call of Register, after which the loop has called the client's Register.
abbrev pub IsRegisteredAgain : Registrar → Type 0
IsRegisteredAgain r = (es : List Event) × IsQuiet es × ((run r es).calls ≡ registered ∷ r.calls)

tick_now :
    (r : Registrar) (c : Option ℕ) (cs : List (Option ℕ))
    → r.selecting ≡ c ∷ cs
    → (step r (ticks 0)).calls ≡ registered ∷ r.calls
unfolding step
tick_now r c cs e = ap (λ xs. (tick r 0 (select_at xs 0)).calls) e

select_now :
    (r : Registrar)
    → 0 < r.ready
    → step r selects ≡ record r { ready = r.ready - 1; selecting = r.quit ∷ r.selecting }
unfolding step
select_now r h =
    let e : ltb 0 r.ready ≡ true = ground (arith, h) in
    ap (λ b. if b then record r { ready = r.ready - 1; selecting = r.quit ∷ r.selecting } else r) e

beat_now :
    (r : Registrar)
    → 0 < r.beating
    → step r beats ≡ record r { beating = r.beating - 1; ready = r.ready + 1 }
unfolding step
beat_now r h =
    let e : ltb 0 r.beating ≡ true = ground (arith, h) in
    ap (λ b. if b then record r { beating = r.beating - 1; ready = r.ready + 1 } else r) e

ready-IsRegisteredAgain : (r : Registrar) → 0 < r.ready → IsRegisteredAgain r
unfolding run
ready-IsRegisteredAgain r h =
    let s = select_now r h in
    (
      selects ∷ ticks 0 ∷ [],
      tt,
      tick_now (step r selects) r.quit r.selecting (ap (λ (x : Registrar). x.selecting) s)
          ∙ ap (λ (x : Registrar). registered ∷ x.calls) s,
    )

beating-IsRegisteredAgain : (r : Registrar) → 0 < r.beating → IsRegisteredAgain r
unfolding run
beating-IsRegisteredAgain r h =
    let s = beat_now r h in
    let again =
      ready-IsRegisteredAgain (record r { beating = r.beating - 1; ready = r.ready + 1 })
        (omega arith) in
    (beats ∷ again.0, quiet_beat again.0 again.1, ap (λ x. (run x again.0).calls) s ∙ again.2)
  where
    quiet_beat : (es : List Event) → IsQuiet es → IsQuiet (beats ∷ es)
    quiet_beat es q = q

selecting-IsRegisteredAgain :
    (r : Registrar) (cs : List (Option ℕ)) → r.selecting ≡ cs → 0 < length cs → IsRegisteredAgain r
unfolding run
selecting-IsRegisteredAgain r [] e h = absurd (omega arith)
selecting-IsRegisteredAgain r (c ∷ cs) e h = (ticks 0 ∷ [], tt, tick_now r c cs e)

abandoned-IsRegisteredAgain :
    (n : ℕ) (r : Registrar) → 0 < n → IsAbandoned n r → IsRegisteredAgain r
abandoned-IsRegisteredAgain n r h k = elim (Bool-cases (ltb 0 r.ready)) [
  | inl a ↦ ready-IsRegisteredAgain r (ground (arith, a))
  | inr a ↦ elim (Bool-cases (ltb 0 r.beating)) [
    | inl b ↦ beating-IsRegisteredAgain r (ground (arith, b))
    | inr b ↦ selecting-IsRegisteredAgain r r.selecting refl (ground (arith, a, b, h, k.running))
  ]
]

-- If Deregister closes the channel while no loop is in its select or at its start, but some are on their way
-- to a select or in the client's Register, then whatever happens after it without a new call of
-- Register, those loops can register the service once more.
pub late_loop_registers :
    (r : Registrar) (c : ℕ) (es : List Event)
    → r.quit ≡ some c
    → r.locked ≡ false
    → 0 < r.closing
    → r.starting ≡ 0
    → r.selecting ≡ []
    → 0 < r.ready + r.beating
    → IsQuiet es
    → ((step r closes).quit ≡ none)
      × ((step r closes).returned ≡ r.returned + 1)
      × IsRegisteredAgain (run (step r closes) es)
unfolding step
late_loop_registers r c es has free pending none_starting none_selecting some_late quiet =
    let can : ltb 0 r.closing ≡ true = ground (arith, pending) in
    let here : step r closes ≡ close_quit r (some c) =
      ap (λ b. if not b && ltb 0 r.closing then close_quit r r.quit else r) free
      ∙ ap (λ b. if b then close_quit r r.quit else r) can
      ∙ ap (close_quit r) has in
    let no_selects : length r.selecting ≡ 0 = ap length none_selecting in
    let abandoned : IsAbandoned (r.ready + r.beating) (close_quit r (some c)) = record {
      quit = refl;
      starting = none_starting;
      selecting = subst (λ cs. IsNil cs) (sym none_selecting) tt;
      running = omega (arith, no_selects);
    } in
    (
      ap (λ (x : Registrar). x.quit) here,
      ap (λ (x : Registrar). x.returned) here,
      abandoned-IsRegisteredAgain (r.ready + r.beating) _ some_late (
          run-IsAbandoned (r.ready + r.beating) (step r closes) es quiet
            (subst (IsAbandoned (r.ready + r.beating)) (sym here) abandoned)),
    )
