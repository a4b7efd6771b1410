-- ===== src/Sd/Etcd/Registrar/Stuck.antt =====
-- What a second call of Register does to Deregister in sd/etcd/registrar.go.
use yoroi.Prelude.{
  ℕ, ◌-◌, ◌<◌, ◌≡◌, refl, sym, ap, subst, ◌∙◌, Option, none, some, List, [], ◌∷◌, true, false, ◌&&◌,
  not, ltb, arith, if◌then◌else◌,
}
use yoroi.Sd.Etcd.Registrar.{
  Registrar, Event, registers, starts, selects, ticks, beats, stops, deregisters, closes, register,
  lock_and_make, select_at, tick, stop, close_quit, step, run,
}

-- The mutex is locked for good, and nothing that it guards has changed.
pub record IsStuck (r r' : Registrar) : Type 0 where
  pub locked : r'.locked ≡ true
  pub quit : r'.quit ≡ r.quit
  pub closed : r'.closed ≡ r.closed
  pub returned : r'.returned ≡ r.returned

tick-IsStuck :
    (r r' : Registrar) (i : ℕ) (o : Option (Option ℕ)) → IsStuck r r' → IsStuck r (tick r' i o)
tick-IsStuck r r' i none h = h
tick-IsStuck r r' i (some c) h = record {
  locked = h.locked;
  quit = h.quit;
  closed = h.closed;
  returned = h.returned;
}

stop-IsStuck :
    (r r' : Registrar) (i : ℕ) (o : Option (Option ℕ)) → IsStuck r r' → IsStuck r (stop r' i o)
stop-IsStuck r r' i none h = h
stop-IsStuck r r' i (some c) h = record {
  locked = ground (arith, h.locked);
  quit = ground (arith, h.quit);
  closed = ground (arith, h.closed);
  returned = ground (arith, h.returned);
}

step-IsStuck : (r r' : Registrar) (e : Event) → IsStuck r r' → IsStuck r (step r' e)
unfolding step register
step-IsStuck r r' registers h = record {
  locked = h.locked;
  quit = h.quit;
  closed = h.closed;
  returned = h.returned;
}
step-IsStuck r r' starts h =
    subst (λ b. IsStuck r (if not b && ltb 0 r'.starting then lock_and_make r' r'.quit else r'))
      (sym h.locked) h
step-IsStuck r r' selects h = record {
  locked = ground (arith, h.locked);
  quit = ground (arith, h.quit);
  closed = ground (arith, h.closed);
  returned = ground (arith, h.returned);
}
step-IsStuck r r' (ticks i) h = tick-IsStuck r r' i (select_at r'.selecting i) h
step-IsStuck r r' beats h = record {
  locked = ground (arith, h.locked);
  quit = ground (arith, h.quit);
  closed = ground (arith, h.closed);
  returned = ground (arith, h.returned);
}
step-IsStuck r r' (stops i) h = stop-IsStuck r r' i (select_at r'.selecting i) h
step-IsStuck r r' deregisters h = record {
  locked = h.locked;
  quit = h.quit;
  closed = h.closed;
  returned = h.returned;
}
step-IsStuck r r' closes h =
    subst (λ b. IsStuck r (if not b && ltb 0 r'.closing then close_quit r' r'.quit else r'))
      (sym h.locked) h

run-IsStuck : (r r' : Registrar) (es : List Event) → IsStuck r r' → IsStuck r (run r' es)
unfolding run
run-IsStuck r r' [] h = h
run-IsStuck r r' (e ∷ es) h = run-IsStuck r (step r' e) es (step-IsStuck r r' e h)

-- If a goroutine starts while there is a channel already, as after a second call of Register, then
-- whatever happens after it, no call of Deregister returns, and no channel is closed, so that the
-- loop that runs goes on.
pub second_register_blocks :
    (r : Registrar) (c : ℕ) (es : List Event)
    → r.quit ≡ some c
    → 0 < r.starting
    → r.locked ≡ false
    → IsStuck r (run (step r starts) es)
unfolding step
second_register_blocks r c es has pending free =
    let can : ltb 0 r.starting ≡ true = ground (arith, pending) in
    let here : step r starts ≡ record r { locked = true; starting = r.starting - 1 } =
      ap (λ b. if not b && ltb 0 r.starting then lock_and_make r r.quit else r) free
      ∙ ap (λ b. if b then lock_and_make r r.quit else r) can
      ∙ ap (lock_and_make r) has in
    run-IsStuck r (step r starts) es (
      subst (IsStuck r) (sym here)
        (record { locked = refl; quit = refl; closed = refl; returned = refl }))
