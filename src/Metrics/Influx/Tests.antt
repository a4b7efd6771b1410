-- ===== src/Metrics/Influx/Tests.antt =====
-- The theorem about WriteTo of metrics/influx/influx.go at concrete spaces, over numbers in place of floats.
use yoroi.Prelude.{
  ℕ, ◌+◌, ◌≡◌, refl, String, Option, none, some, List, [], ◌∷◌, ltb, leb, Assoc, insert,
}
use yoroi.Metrics.Emit.{Floats}
use yoroi.Metrics.Space.{Space, node, nil, cons, new_space}
use yoroi.Metrics.Space.Walks.{entries}
use yoroi.Metrics.Graphite.{Quantile}
use yoroi.Metrics.Influx.{Influx, Point, merge_tags, write_to}
use yoroi.Metrics.Influx.Flushing.{write_to_batch}

abbrev floats : Floats ℕ
floats = record { zero = 0; one = 1; plus = λ x y. x + y; less = ltb; leq = leb; text = λ x. "" }

abbrev quantile : List ℕ → Quantile → ℕ
quantile values q = 7

-- A point without fields is refused.
abbrev needs_fields : Point ℕ → Option String
needs_fields p = elim p.fields [ [] ↦ some "no fields" | f ∷ fs ↦ none ]

-- A writer that always fails.
abbrev failing : ℕ → List (Point ℕ) → ℕ × Option String
failing calls points = (calls + 1, some "unreachable")

abbrev requests : Space ℕ
requests = record {
  nodes = ("requests", node (1 ∷ 2 ∷ []) (cons "region" "eu" (node (5 ∷ []) nil) nil)) ∷ [];
}

abbrev gauge : Space ℕ
gauge = record { nodes = ("queue", node (4 ∷ 9 ∷ []) nil) ∷ [] }

abbrev metrics : Influx ℕ
metrics = record {
  counters = requests;
  gauges = gauge;
  histograms = record { nodes = [] };
  tags = ("region", "us") ∷ [];
}

abbrev us : Assoc String
us = ("region", "us") ∷ []

abbrev eu : Assoc String
eu = ("region", "eu") ∷ []

write_to_batch_example : write_to floats quantile needs_fields failing none metrics 0 ≡ (
  record { counters = new_space; gauges = new_space; histograms = new_space; tags = us },
  1,
  some (some "unreachable"),
)
unfolding merge_tags entries insert
write_to_batch_example =
    write_to_batch floats quantile needs_fields failing metrics 0
      (record { name = "requests"; tags = us; fields = ("count", 3) ∷ [] }
        ∷ record { name = "requests"; tags = eu; fields = ("count", 5) ∷ [] }
        ∷ [])
      (record { name = "queue"; tags = us; fields = ("value", 9) ∷ [] } ∷ []) [] refl refl refl
      (refl, (refl, tt)) (refl, tt) tt
