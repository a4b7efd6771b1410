-- ===== src/Circuitbreaker.antt =====
-- circuitbreaker: middlewares over circuit breakers of other packages.
use yoroi.Prelude.{◌≡◌, Bool, not, Option, none, some, arith, if◌then◌else◌}
use yoroi.Endpoint.{Reply, Endpoint, Middleware}

-- conversionError of circuitbreaker/error.go, beside the errors `E` of the rest.
pub data BreakerError {ℓ} (E : Type ℓ) : Type ℓ where
  conversion_error : BreakerError E
  error : E → BreakerError E

-- gobreaker.go, where the response type `O` is an interface: a response is nil or a value.
module _ {ℓ} {E V : Type ℓ} where
  -- `i.(O)`: the assertion fails on nil.
  abbrev asserted : Option V → Reply (BreakerError E) (Option V)
  asserted none = record { response = none; err = some conversion_error }
  asserted (some v) = record { response = some v; err = none }

  -- What follows the call of `cb.Execute`.
  abbrev finish : Reply (BreakerError E) (Option V) → Reply (BreakerError E) (Option V)
  finish r = elim r.err [
    | some e ↦ record { response = none; err = some e }
    | none ↦ asserted r.response
  ]

module _ {ℓ} {W C Q E V : Type ℓ} where
  -- `cb.Execute` runs the request, or refuses it with an error of its own.
  pub gobreaker :
      ((W → W × Reply (BreakerError E) (Option V)) → W → W × Reply (BreakerError E) (Option V))
      → Middleware W C Q (BreakerError E) (Option V)
  gobreaker execute next ctx request w =
      let (w', r) = execute (next ctx request) w in (w', finish r)

  -- Through a breaker that is closed and runs the request, an endpoint's error comes back without its
  -- response and a response that is not nil comes back; but a nil response with no error
  -- becomes the conversion error.
  pub gobreaker_closed :
      (execute : (W → W × Reply (BreakerError E) (Option V))
        → W
        → W × Reply (BreakerError E) (Option V))
      (next : Endpoint W C Q (BreakerError E) (Option V)) (ctx : C) (q : Q) (w w' : W)
      (r : Reply (BreakerError E) (Option V))
      → execute (next ctx q) w ≡ (w', r)
      → gobreaker execute next ctx q w ≡ (
        w',
        record {
          response = elim r.err [ some e ↦ none | none ↦ r.response ];
          err = elim r.err [
            | some e ↦ some e
            | none ↦ elim r.response [ none ↦ some conversion_error | some v ↦ none ]
          ];
        },
      )
  unfolding gobreaker
  gobreaker_closed execute next ctx q w w' r runs = ground arith

-- handy_breaker.go
pub record Breaker {ℓ} (W : Type ℓ) : Type ℓ where
  pub allow : W → W × Bool
  pub success : W → W
  pub failure : W → W

abbrev report {ℓ} : {W E : Type ℓ} → Breaker W → Option E → W → W
report cb none w = cb.success w
report cb (some e) w = cb.failure w

module _ {ℓ} {W C Q E O : Type ℓ} (zero_value : O) where
  pub handy_breaker : Breaker W → E → Middleware W C Q E O
  handy_breaker cb err_circuit_open next ctx request w =
      let (w', allowed) = cb.allow w in
      if not allowed
      then (w', record { response = zero_value; err = some err_circuit_open })
      else let (w'', r) = next ctx request w' in (report cb r.err w'', r)
