-- ===== src/Lb/RoundRobin.antt =====
-- sd/lb/round_robin.go. The counter is a uint64; one call is one atomic addition.
pub mod Rotation
use yoroi.Prelude.{
  ℕ, zero, suc, ◌+◌, ◌-◌, ◌%◌, ◌^◌, Option, none, some, List, [], ◌∷◌, length, get_elem?, ◌==◌,
  if◌then◌else◌,
}
use yoroi.Lb.Reply.{Found, Picked, err_no_endpoints}

abbrev pub u64_mod : ℕ
u64_mod = 2 ^ 64

pub record RoundRobin : Type 0 where
  pub c : ℕ

pub new_round_robin : RoundRobin
new_round_robin = record { c = 0 }

module _ {ℓ} {P : Type ℓ} where
  -- `none` stands for a panic: an index out of range.
  pub endpoint : RoundRobin → Found P → RoundRobin × Option (Picked P)
  endpoint rr found = elim found.err [
    | some e ↦ (rr, some (record { endpoint = none; err = some e }))
    | none ↦
        if length found.endpoints == 0
        then (rr, some (record { endpoint = none; err = some err_no_endpoints }))
        else let c' = (rr.c + 1) % u64_mod in
          let old = (c' + u64_mod - 1) % u64_mod in
          let idx = old % length found.endpoints in
          (
            record { c = c' },
            elim (get_elem? found.endpoints idx) [
              | none ↦ none
              | some e ↦ some (record { endpoint = some e; err = none })
            ],
          )
  ]

  -- `n` calls in a row, over endpoints that stay the same.
  pub calls : ℕ → RoundRobin → Found P → RoundRobin × List (Option (Picked P))
  calls zero rr found = (rr, [])
  calls (suc n) rr found =
      let (rr', r) = endpoint rr found in let (rr'', rs) = calls n rr' found in (rr'', r ∷ rs)
