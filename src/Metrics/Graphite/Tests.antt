-- ===== src/Metrics/Graphite/Tests.antt =====
-- The theorem about metrics/graphite/graphite.go at concrete metrics.
use yoroi.Prelude.{ℕ, suc, ◌+◌, ◌==◌, ltb, leb, none, some, [], ◌∷◌, if◌then◌else◌}
use yoroi.Metrics.Emit.{Floats, IoWriter}
use yoroi.Metrics.Graphite.{Graphite, Quantile}

abbrev floats : Floats ℕ
floats = record {
  zero = 0;
  one = 1;
  plus = λ x y. x + y;
  less = ltb;
  leq = leb;
  text = λ n. if n == 3 then "3.000000" else "5.000000";
}

-- A writer whose second write fails.
abbrev flaky : IoWriter ℕ
flaky = record { print = λ w line. if w == 1 then (2, 0, some "broken pipe") else (suc w, 1, none) }

abbrev quantile : ℕ → Quantile → ℕ
quantile h q = h

abbrev metrics : Graphite ℕ ℕ
metrics = record {
  prefix = "app.";
  counters = ("app.a", 3) ∷ ("app.b", 5) ∷ ("app.c", 3) ∷ [];
  gauges = ("app.users", 3) ∷ [];
  histograms = ("app.wait", 5) ∷ [];
}
