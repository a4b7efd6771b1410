-- ===== src/Sd/Dnssrv/Tests.antt =====
-- The theorem about sd/dnssrv/instancer.go at concrete lookups.
use Prim.Native.String.{◌++◌ as join}
use yoroi.Prelude.{ℕ, ◌==◌, String, List, [], ◌∷◌, if◌then◌else◌}
use yoroi.Sd.Dnssrv.{Srv}

abbrev host_port : String → ℕ → String
host_port host port = join host (join ":" (if port == 80 then "80" else "8080"))

abbrev records : List Srv
records = record { target = "a"; port = 80 } ∷ record { target = "b"; port = 8080 } ∷ []
