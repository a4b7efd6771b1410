-- ===== src/Endpoint/Tests.antt =====
-- The theorems about endpoints and middlewares at concrete ones. The world is the log of the
-- middlewares that a request went through, the last one first.
use yoroi.Prelude.{ℕ, ◌≡◌, Bool, true, false, Option, none, some, List, [], ◌∷◌, String}
use yoroi.Endpoint.{Reply, Endpoint, Middleware, chain}
use yoroi.Endpoint.Chain.{chain-foldr}
use yoroi.Circuitbreaker.{BreakerError}

abbrev Log : Type 0
Log = List String

abbrev echo : Endpoint Log ℕ ℕ String ℕ
echo ctx q w = ("echo" ∷ w, record { response = q; err = none })

abbrev named : String → Middleware Log ℕ ℕ String ℕ
named name next ctx q w = next ctx q (name ∷ w)

chain-foldr_example :
    chain (named "a") (named "b" ∷ named "c" ∷ []) echo
    ≡ some (named "a" (named "b" (named "c" echo)))
chain-foldr_example = chain-foldr (named "a") (named "b" ∷ named "c" ∷ []) echo

abbrev refusing : Log → Log × Bool
refusing w = ("asked" ∷ w, false)

abbrev allowing : Log → Log × Bool
allowing w = ("asked" ∷ w, true)

-- An endpoint that returns a nil response and no error.
abbrev silent : Endpoint Log ℕ ℕ (BreakerError String) (Option ℕ)
silent ctx q w = (w, record { response = none; err = none })

abbrev running :
    (Log → Log × Reply (BreakerError String) (Option ℕ))
    → Log
    → Log × Reply (BreakerError String) (Option ℕ)
running f w = f w
