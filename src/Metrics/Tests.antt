-- ===== src/Metrics/Tests.antt =====
-- The theorems about metrics at concrete values.
use yoroi.Prelude.{ℕ, ◌+◌, String, List, false, ◌≡◌, refl, [], ◌∷◌, arith}
use yoroi.Metrics.LabelValues.{LabelValues, Heap, read, with}
use yoroi.Metrics.Space.{Node, node, nil, cons, Space, Visitor}
use yoroi.Metrics.LabelValues.Sharing.{IsSlice, with_overwrites}

abbrev spare : ℕ → ℕ
spare n = 2

-- Six labels in an array for eight.
abbrev arrays : Heap
arrays = ("a" ∷ "1" ∷ "b" ∷ "2" ∷ "c" ∷ "3" ∷ "" ∷ "" ∷ []) ∷ []

abbrev base : LabelValues
base = record { array = 0; len = 6 }

base-IsSlice : IsSlice arrays base
base-IsSlice = record { in_heap = omega arith; in_array = omega arith }

-- The method "get" of the first metric turns into "put".
with_overwrites_example :
    read
      (with spare (with spare arrays base ("method" ∷ "get" ∷ [])).0 base ("method" ∷ "put" ∷ [])).0
      (with spare arrays base ("method" ∷ "get" ∷ [])).1
    ≡ "a" ∷ "1" ∷ "b" ∷ "2" ∷ "c" ∷ "3" ∷ "method" ∷ "put" ∷ []
with_overwrites_example =
    with_overwrites spare arrays base ("method" ∷ "get" ∷ []) ("method" ∷ "put" ∷ []) base-IsSlice
      (omega arith) refl

-- One series of one name, over numbers.
abbrev get_path : List String
get_path = "method" ∷ "get" ∷ []

abbrev requests : Node ℕ
requests = node [] (cons "method" "get" (node (4 ∷ []) nil) nil)

abbrev space : Space ℕ
space = record { nodes = ("requests", requests) ∷ [] }

abbrev plus : ℕ → ℕ → ℕ
plus x y = x + y

-- Stops after the first series.
abbrev first_only : Visitor (List (List ℕ)) ℕ
first_only lvs o s = (o ∷ s, false)
