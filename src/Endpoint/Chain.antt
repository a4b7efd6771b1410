-- ===== src/Endpoint/Chain.antt =====
-- The order in which `Chain` of endpoint/endpoint.go applies middlewares.
use mathlib.Core.List.{foldr, foldr-append}
use yoroi.Prelude.{
  ℕ, zero, suc, ◌≤◌, ◌≡◌, refl, ◌∙◌, some, List, ◌∷◌, arith, length, get_elem?-some, take, take_all,
  take-suc,
}
use yoroi.Endpoint.{Endpoint, Middleware, wrap, chain}

abbrev pub apply_to {ℓ} : {A : Type ℓ} → (A → A) → A → A
apply_to f a = f a

module _ {ℓ} {W C Q E O : Type ℓ} where
  wrap-foldr :
      (others : List (Middleware W C Q E O)) (i : ℕ) (next : Endpoint W C Q E O)
      → i ≤ length others
      → wrap others i next ≡ some (foldr apply_to next (take i others))
  unfolding wrap
  wrap-foldr others zero next h = refl
  wrap-foldr others (suc i) next h =
      let (m, here) = get_elem?-some others i (omega arith) in
      rw (here, wrap)
        (wrap-foldr others i (m next) (omega arith) ∙ rw (take-suc others i m here, foldr-append))

  -- `Chain` never indexes out of range, and nests the middlewares in the order of its arguments, the
  -- first outermost.
  pub chain-foldr :
      (outer : Middleware W C Q E O) (others : List (Middleware W C Q E O))
      (next : Endpoint W C Q E O)
      → chain outer others next ≡ some (foldr apply_to next (outer ∷ others))
  unfolding chain
  chain-foldr outer others next = rw (
    wrap-foldr others (length others) next (omega arith),
    take_all others (length others) (omega arith),
    chain,
  )
