-- ===== src/Metrics/Dogstatsd/Tests.antt =====
-- The theorems about metrics/dogstatsd/dogstatsd.go at concrete metrics.
use Prim.Native.String.{◌++◌ as join}
use yoroi.Prelude.{
  ℕ, suc, ◌+◌, ◌==◌, ltb, leb, ◌≡◌, refl, String, none, some, [], ◌∷◌, true, false, if◌then◌else◌,
  lookup, insert,
}
use yoroi.Metrics.Space.{node, nil, new_space}
use yoroi.Metrics.Space.Walks.{entries}
use yoroi.Metrics.Emit.{Floats, IoWriter}
use yoroi.Metrics.Dogstatsd.{Dogstatsd, dogstatsd_layout, new_gauge}
use yoroi.Metrics.Dogstatsd.Gauges.{IsIndexed}
use yoroi.Metrics.Dogstatsd.NewGauge.{without_gauges-IsIndexed, new_gauge-IsIndexed}
use yoroi.Metrics.Dogstatsd.Lines.{write_to}
use yoroi.Metrics.Dogstatsd.Writing.{flushed, write_to_all}

abbrev text_of : ℕ → String
text_of n = if n == 3 then "3.000000" else if n == 5 then "5.000000" else "8.000000"

abbrev floats : Floats ℕ
floats = record { zero = 0; one = 1; plus = λ x y. x + y; less = ltb; leq = leb; text = text_of }

-- A buffer.
abbrev buffer : IoWriter String
buffer = record { print = λ w line. (join w line, 1, none) }

abbrev bare : Dogstatsd ℕ
bare = record {
  naming = record { prefix = "app."; rates = []; lvs = "env" ∷ "test" ∷ [] };
  counters = record { nodes = ("requests", node (3 ∷ 5 ∷ []) nil) ∷ [] };
  gauges = [];
  objects = [];
  timings = record { nodes = ("wait", node (5 ∷ []) nil) ∷ [] };
  histograms = new_space;
}

-- One gauge, which is set.
abbrev metrics : Dogstatsd ℕ
metrics = record bare {
  gauges = ("users", node (0 ∷ []) nil) ∷ [];
  objects = record { value = 3; name = "users"; lvs = []; set = true } ∷ [];
  histograms = record { nodes = [] };
}

write_to_all_example :
    ((write_to floats buffer dogstatsd_layout metrics "").out.err ≡ none)
    × ((write_to floats buffer dogstatsd_layout metrics "").out.panicked ≡ false)
    × ((write_to floats buffer dogstatsd_layout metrics "").out.w
        ≡ "app.requests:8.000000|c|#env:test\napp.users:3.000000|g|#env:test\napp.wait:5.000000|ms|#env:test\n")
    × ((write_to floats buffer dogstatsd_layout metrics "").d
        ≡ flushed floats dogstatsd_layout metrics)
unfolding entries lookup
write_to_all_example =
    write_to_all floats buffer dogstatsd_layout metrics (λ w l. refl) tt "" (tt, tt)

-- A writer whose first write fails.
abbrev flaky : IoWriter ℕ
flaky = record { print = λ w line. if w == 0 then (1, 0, some "broken pipe") else (suc w, 1, none) }

abbrev gauge_and_timing : Dogstatsd ℕ
gauge_and_timing = record metrics { counters = record { nodes = [] } }

abbrev one_gauge : Dogstatsd ℕ
one_gauge = record bare {
  gauges = ("users", node (0 ∷ []) nil) ∷ [];
  objects = record { value = 0; name = "users"; lvs = []; set = false } ∷ [];
}

one_gauge-IsIndexed : IsIndexed one_gauge
unfolding new_gauge lookup insert
one_gauge-IsIndexed = new_gauge-IsIndexed 0 bare "users" (without_gauges-IsIndexed bare refl)
