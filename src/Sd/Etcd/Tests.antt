-- ===== src/Sd/Etcd/Tests.antt =====
-- The theorems about sd/etcd/registrar.go at concrete events.
use yoroi.Prelude.{◌+◌, ◌≡◌, refl, none, [], ◌∷◌, true, arith}
use yoroi.Sd.Etcd.Registrar.{
  Registrar, registers, starts, selects, ticks, deregisters, closes, new_registrar, register, step,
  run,
}
use yoroi.Sd.Etcd.Registrar.Stuck.{IsStuck, second_register_blocks}
use yoroi.Sd.Etcd.Registrar.Late.{IsRegisteredAgain, late_loop_registers}

-- Register was called twice, and one loop runs.
abbrev twice : Registrar
twice = run (new_registrar true) (registers ∷ starts ∷ registers ∷ [])

second_register_blocks_example : IsStuck twice (run (step twice starts) (deregisters ∷ closes ∷ []))
unfolding run step new_registrar register
second_register_blocks_example =
    second_register_blocks twice 0 (deregisters ∷ closes ∷ []) refl (omega arith) refl

-- Deregister comes while the loop calls the client.
abbrev late : Registrar
late = run (new_registrar true) (registers ∷ starts ∷ selects ∷ ticks 0 ∷ deregisters ∷ [])

late_loop_registers_example :
    ((step late closes).quit ≡ none)
    × ((step late closes).returned ≡ late.returned + 1)
    × IsRegisteredAgain (run (step late closes) [])
unfolding run step new_registrar register
late_loop_registers_example =
    late_loop_registers late 0 [] refl refl (omega arith) refl refl (omega arith) tt
