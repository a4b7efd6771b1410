-- ===== src/Ratelimit.antt =====
-- ratelimit/token_bucket.go: middlewares over a limiter, which is not part of the program.
use yoroi.Prelude.{◌≡◌, Bool, not, Option, none, some, arith, if◌then◌else◌}
use yoroi.Endpoint.{Endpoint, Middleware}

module _ {ℓ} {W C Q E O : Type ℓ} (zero_value : O) where
  -- `Allow` may change the limiter.
  pub erroring_limiter : (W → W × Bool) → E → Middleware W C Q E O
  erroring_limiter allow err_limited next ctx request w =
      let (w', allowed) = allow w in
      if not allowed
      then (w', record { response = zero_value; err = some err_limited })
      else next ctx request w'

  pub delaying_limiter : (C → W → W × Option E) → Middleware W C Q E O
  delaying_limiter wait next ctx request w =
      let (w', waited) = wait ctx w in
      elim waited [
        | some e ↦ (w', record { response = zero_value; err = some e })
        | none ↦ next ctx request w'
      ]

  -- Two erroring limiters, one inside the other, let a request through exactly when both allow it;
  -- the inner one is not asked when the outer one refuses.
  pub limiters_nested :
      (outer inner : W → W × Bool) (e : E) (next : Endpoint W C Q E O) (ctx : C) (q : Q) (w : W)
      → erroring_limiter outer e (erroring_limiter inner e next) ctx q w ≡ (
          if (outer w).1
          then (if (inner (outer w).0).1
              then next ctx q (inner (outer w).0).0
              else ((inner (outer w).0).0, record { response = zero_value; err = some e }))
          else ((outer w).0, record { response = zero_value; err = some e }))
  unfolding erroring_limiter
  limiters_nested outer inner e next ctx q w = ground arith
