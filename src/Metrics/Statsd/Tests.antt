-- ===== src/Metrics/Statsd/Tests.antt =====
-- The theorems about metrics/statsd/statsd.go at concrete metrics.
use Prim.Native.String.{◌++◌ as join}
use yoroi.Prelude.{ℕ, ◌+◌, String, none, [], ◌∷◌, ltb, leb, ◌==◌, if◌then◌else◌}
use yoroi.Metrics.Space.{node, nil}
use yoroi.Metrics.Emit.{Floats, IoWriter}
use yoroi.Metrics.Statsd.{Statsd}

abbrev text_of : ℕ → String
text_of n = if n == 3 then "3.000000" else if n == 5 then "5.000000" else "8.000000"

abbrev floats : Floats ℕ
floats = record { zero = 0; one = 1; plus = λ x y. x + y; less = ltb; leq = leb; text = text_of }

-- A buffer.
abbrev buffer : IoWriter String
buffer = record { print = λ w line. (join w line, 1, none) }

abbrev metrics : Statsd ℕ
metrics = record {
  prefix = "app.";
  rates = [];
  counters = record { nodes = ("app.requests", node (3 ∷ 5 ∷ []) nil) ∷ [] };
  gauges = record { nodes = ("app.users", node (5 ∷ 3 ∷ []) nil) ∷ [] };
  timings = record { nodes = ("app.wait", node (5 ∷ []) nil) ∷ [] };
}
