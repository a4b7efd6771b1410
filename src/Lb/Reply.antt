-- ===== src/Lb/Reply.antt =====
-- sd/lb/balancer.go: what `Balancer.Endpoint` and `Endpointer.Endpoints` return.
use yoroi.Prelude.{Option, List}
use yoroi.Sd.Event.{Error}

-- The results of `Endpoints`.
pub record Found {ℓ} (P : Type ℓ) : Type ℓ where
  pub endpoints : List P
  pub err : Option Error

-- The results of `Endpoint`; `none` is the nil endpoint.
pub record Picked {ℓ} (P : Type ℓ) : Type ℓ where
  pub endpoint : Option P
  pub err : Option Error

abbrev pub err_no_endpoints : Error
err_no_endpoints = "no endpoints available"
