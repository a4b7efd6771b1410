-- ===== src/Endpoint.antt =====
-- endpoint/endpoint.go: endpoints and middlewares. What an endpoint does to the rest of the program is
-- its effect on a world `W`; an endpoint returns a response and an error of type `E`, which may
-- be nil.
pub mod Chain
mod Tests
use yoroi.Prelude.{ℕ, zero, suc, Option, none, some, List, get_elem?, length}

pub record Reply {ℓ} (E O : Type ℓ) : Type ℓ where
  pub response : O
  pub err : Option E

abbrev pub Endpoint {ℓ} : Type ℓ → Type ℓ → Type ℓ → Type ℓ → Type ℓ → Type ℓ
Endpoint W C Q E O = C → Q → W → W × Reply E O

abbrev pub Middleware {ℓ} : Type ℓ → Type ℓ → Type ℓ → Type ℓ → Type ℓ → Type ℓ
Middleware W C Q E O = Endpoint W C Q E O → Endpoint W C Q E O

module _ {ℓ} {W C Q E O : Type ℓ} where
  -- The loop of `Chain`: `i` counts down from `len(others)`; `none` is an index out of range.
  pub wrap : List (Middleware W C Q E O) → ℕ → Endpoint W C Q E O → Option (Endpoint W C Q E O)
  wrap others zero next = some next
  wrap others (suc i) next = elim (get_elem? others i) [
    | none ↦ none
    | some m ↦ wrap others i (m next)
  ]

  pub chain :
      Middleware W C Q E O
      → List (Middleware W C Q E O)
      → Endpoint W C Q E O
      → Option (Endpoint W C Q E O)
  unfolding wrap
  chain outer others next = elim (wrap others (length others) next) [
    | none ↦ none
    | some e ↦ some (outer e)
  ]
