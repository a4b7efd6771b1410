-- ===== src/Sd/Eureka/Registrar/Ending.antt =====
-- Deregister of sd/eureka/registrar.go comes to its end.
use yoroi.Prelude.{ℕ, zero, suc, ◌+◌, ◌≡◌, refl, List, [], ◌∷◌, Bool, false, arith}
use yoroi.Sd.Eureka.Registrar.{
  Holder, free, registering, sending, awaiting, answered, Registrar, new_registrar, Event, meets,
  ends, returns, beats, good, step, run,
}
use yoroi.Sd.Eureka.Registrar.Single.{IsSingle, new_registrar-IsSingle, run-IsSingle}

-- Deregister has the mutex, and there was a channel.
pub data IsDeregistering : Holder → Type 0 where
  at_send : IsDeregistering sending
  at_receive : IsDeregistering awaiting
  at_end : IsDeregistering answered

-- The events after which it has returned, and which begin with none of its own steps if a heartbeat
-- is on its way.
abbrev pub rest_of : Bool → Holder → ℕ → List Event
rest_of succeeds free n = []
rest_of succeeds registering n = []
rest_of succeeds sending zero = meets ∷ ends succeeds ∷ returns ∷ []
rest_of succeeds sending (suc n) = beats good ∷ meets ∷ ends succeeds ∷ returns ∷ []
rest_of succeeds awaiting n = ends succeeds ∷ returns ∷ []
rest_of succeeds answered n = returns ∷ []

module _ (r : Registrar) (h : IsSingle r) where
  abbrev IsEnded : Registrar → Type 0
  IsEnded r' =
      (r'.returned ≡ r.returned + 1)
      × (r'.holder ≡ free)
      × (r'.quitc ≡ false)
      × (r'.waiting + r'.beating + r'.ending ≡ 0)

  ended :
      (succeeds : Bool) (holder : Holder) (n : ℕ)
      → r.holder ≡ holder
      → r.beating ≡ n
      → IsDeregistering holder
      → IsEnded (run r (rest_of succeeds holder n))
  unfolding run step
  ended succeeds free n e k d = elim d [ ]
  ended succeeds registering n e k d = elim d [ ]
  ended succeeds sending zero e k d = ground (arith, h, e, k)
  ended succeeds sending (suc n) e k d = ground (arith, h, e, k)
  ended succeeds awaiting n e k d = ground (arith, h, e, k)
  ended succeeds answered n e k d = ground (arith, h, e, k)

-- If Deregister has the mutex after any events, then at most four more steps are enough for it to
-- return, one of them the end of a heartbeat that was on its way, whether DeregisterInstance then succeeds or
-- not; and then nobody has the mutex, there
-- is no channel, and no loop runs.
pub deregister_ends :
    (es : List Event) (succeeds : Bool)
    → let r = run new_registrar es in
      IsDeregistering r.holder
      → let r' = run r (rest_of succeeds r.holder r.beating) in
        (r'.returned ≡ r.returned + 1)
        × (r'.holder ≡ free)
        × (r'.quitc ≡ false)
        × (r'.waiting + r'.beating + r'.ending ≡ 0)
deregister_ends es succeeds d =
    ended (run new_registrar es) (run-IsSingle new_registrar es new_registrar-IsSingle) succeeds _ _
      refl refl d
