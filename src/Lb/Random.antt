-- ===== src/Lb/Random.antt =====
-- sd/lb/random.go. The source of random numbers is `math/rand`: `intn k n` stands for the `k`-th
-- call of `Intn`, with the argument `n`.
use yoroi.Prelude.{
  ℕ, ◌+◌, ◌<◌, ◌≡◌, Option, none, some, List, ◌∷◌, arith, length, get_elem?, get_elem?-some, ◌==◌,
  if◌then◌else◌,
}
use yoroi.Lb.Reply.{Found, Picked, err_no_endpoints}

-- How many numbers have been drawn.
pub record Random : Type 0 where
  pub drawn : ℕ

module _ {ℓ} {P : Type ℓ} (intn : ℕ → ℕ → ℕ) where
  -- `none` stands for a panic: an index out of range.
  pub endpoint : Random → Found P → Random × Option (Picked P)
  endpoint r found = elim found.err [
    | some e ↦ (r, some (record { endpoint = none; err = some e }))
    | none ↦
        if length found.endpoints == 0
        then (r, some (record { endpoint = none; err = some err_no_endpoints }))
        else (
          record { drawn = r.drawn + 1 },
          elim (get_elem? found.endpoints (intn r.drawn (length found.endpoints))) [
            | none ↦ none
            | some e ↦ some (record { endpoint = some e; err = none })
          ],
        )
  ]

  -- `Intn` returns a number below its argument, so with endpoints and no error there is no panic: the
  -- call draws once and yields the endpoint at the number drawn.
  pub endpoint_in_range :
      (r : Random) (e : P) (es : List P)
      → ((k n : ℕ) → 0 < n → intn k n < n)
      → let i = intn r.drawn (length (e ∷ es)) in
        (x : P) × (get_elem? (e ∷ es) i ≡ some x)
        × (endpoint r (record { endpoints = e ∷ es; err = none })
            ≡ (record { drawn = r.drawn + 1 }, some (record { endpoint = some x; err = none })))
  unfolding endpoint
  endpoint_in_range r e es draws =
      let (x, here) = get_elem?-some (e ∷ es) _ (draws r.drawn (length (e ∷ es)) (omega arith)) in
      (x, here, rw here (ground arith))
