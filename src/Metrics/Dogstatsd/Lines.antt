-- ===== src/Metrics/Dogstatsd/Lines.antt =====
-- WriteTo of metrics/dogstatsd/dogstatsd.go, and of influxstatsd.go with its layout.
use Prim.Native.String.{◌++◌ as join}
use yoroi.Prelude.{
  ℕ, String, Option, none, some, List, [], ◌∷◌, ◌++◌, Bool, true, false, if◌then◌else◌, get_elem?,
  Assoc,
}
use yoroi.Metrics.Ratemap.{get_rate}
use yoroi.Metrics.Space.{Node, reset, Visitor, walk, walk_nodes}
use yoroi.Metrics.Emit.{
  Floats, IoWriter, Out, emit, emit_all, start, Writing, unless_failed, unless_panicked, sum,
  sampling,
}
use yoroi.Metrics.Dogstatsd.{Layout, Naming, Gauge, Dogstatsd, update_at}

-- The pairs of an even number of label values, joined by commas; `none` is a panic.
abbrev pub join_comma : String → Option String → Option String
join_comma s none = none
join_comma s (some t) = some (join s (join "," t))

abbrev pub pairs : String → List String → Option String
pairs mark [] = some ""
pairs mark (l ∷ []) = none
pairs mark (l ∷ v ∷ []) = some (join l (join mark v))
pairs mark (l ∷ v ∷ x ∷ rest) = join_comma (join l (join mark v)) (pairs mark (x ∷ rest))

abbrev pub marked : String → Option String → Option String
marked mark none = none
marked mark (some t) = some (join mark t)

abbrev pub tags_of : Layout → List String → Option String
tags_of layout [] = some ""
tags_of layout (x ∷ xs) = marked layout.tag_mark (pairs layout.pair_mark (x ∷ xs))

abbrev pub with_tags : Layout → String → String → Option String → Option String
with_tags layout head tail none = none
with_tags layout head tail (some tags) = some (
    if layout.behind
    then join head (join tail (join tags "\n"))
    else join head (join tags (join tail "\n")))

module _ {ℓ} {F : Type ℓ} where
  -- tagValues
  abbrev pub tag_values : Layout → Naming F → List String → Option String
  tag_values layout d lvs = tags_of layout (d.lvs ++ lvs)

  -- A line of the given kind.
  abbrev pub line :
      Layout → Naming F → String → List String → String → String → String → Option String
  line layout d name lvs value kind rate =
      with_tags layout (join d.prefix name) (join ":" (join value (join "|" (join kind rate))))
        (tag_values layout d lvs)

module _ {ℓ} {F : Type ℓ} (fl : Floats F) (layout : Layout) (d : Naming F) where
  abbrev pub counter_line : String → List String → List F → Option String
  counter_line name lvs values =
      line layout d name lvs (fl.text (sum fl values)) "c"
        (sampling fl (get_rate fl.one d.rates name))

  -- The lines of a series of timings, "ms", or of a histogram, "h".
  abbrev pub value_lines : String → String → List String → List F → List (Option String)
  value_lines kind name lvs [] = []
  value_lines kind name lvs (x ∷ xs) =
      line layout d name lvs (fl.text x) kind (sampling fl (get_rate fl.one d.rates name))
      ∷ value_lines kind name lvs xs

  abbrev pub gauge_line : Gauge F → Option String
  gauge_line g = line layout d g.name g.lvs (fl.text g.value) "g" ""

-- Gauges are walked with ℕ for floats, which asks for the lowest level.
module _ {F W : Type 0} (fl : Floats F) (io : IoWriter W) (layout : Layout) where
  abbrev pub write_counter : Naming F → String → Visitor (Out W) F
  write_counter d name lvs values out =
      emit_all io (counter_line fl layout d name lvs values ∷ []) out

  abbrev pub write_values : Naming F → String → String → Visitor (Out W) F
  write_values d kind name lvs values out =
      emit_all io (value_lines fl layout d kind name lvs values) out

  unfoldable pub write_counters : Writing (Dogstatsd F) W → Writing (Dogstatsd F) W
  write_counters x = record {
    d = record x.d { counters = (reset x.d.counters).0 };
    out = (walk_nodes (write_counter x.d.naming) (reset x.d.counters).1.nodes x.out).0;
  }

  unfoldable pub write_timings : Writing (Dogstatsd F) W → Writing (Dogstatsd F) W
  write_timings x = record {
    d = record x.d { timings = (reset x.d.timings).0 };
    out = (walk_nodes (write_values x.d.naming "ms") (reset x.d.timings).1.nodes x.out).0;
  }

  unfoldable pub write_histograms : Writing (Dogstatsd F) W → Writing (Dogstatsd F) W
  write_histograms x = record {
    d = record x.d { histograms = (reset x.d.histograms).0 };
    out = (walk_nodes (write_values x.d.naming "h") (reset x.d.histograms).1.nodes x.out).0;
  }

  abbrev pub and_cleared : List (Gauge F) → ℕ → Out W × Bool → (Out W × List (Gauge F)) × Bool
  and_cleared objects g (out, more) =
      ((out, update_at objects g (λ x. record x { set = false })), more)

  -- Gauge.read and the callback: the line of a gauge that is set, which it is no longer then.
  abbrev pub write_gauge :
      Naming F → ℕ → Option (Gauge F) → Out W × List (Gauge F) → (Out W × List (Gauge F)) × Bool
  write_gauge d g none (out, objects) = ((out, objects), true)
  write_gauge d g (some x) (out, objects) =
      and_cleared objects g (if x.set then emit io (gauge_line fl layout d x) out else (out, true))

  -- gaugeNode.walk, for a node with a gauge.
  abbrev pub visit_gauge : Naming F → Visitor (Out W × List (Gauge F)) ℕ
  visit_gauge d lvs [] (out, objects) = ((out, objects), true)
  visit_gauge d lvs (g ∷ gs) (out, objects) = write_gauge d g (get_elem? objects g) (out, objects)

  -- The loop over the roots; it goes on after an error.
  abbrev pub write_roots :
      Naming F → Assoc (Node ℕ) → Out W × List (Gauge F) → Out W × List (Gauge F)
  write_roots d [] s = s
  write_roots d ((name, n) ∷ rest) s = write_roots d rest (walk (visit_gauge d) [] n s).0

  unfoldable pub write_gauges : Writing (Dogstatsd F) W → Writing (Dogstatsd F) W
  write_gauges x =
      let (out', objects') = write_roots x.d.naming x.d.gauges (x.out, x.d.objects) in
      record { d = record x.d { objects = objects' }; out = out' }

  -- From the timings on, and from the gauges on.
  abbrev pub from_timings : Writing (Dogstatsd F) W → Writing (Dogstatsd F) W
  from_timings x = unless_failed write_histograms (write_timings x)

  abbrev pub from_gauges : Writing (Dogstatsd F) W → Writing (Dogstatsd F) W
  from_gauges x = unless_panicked from_timings (write_gauges x)

  unfoldable pub write_to : Dogstatsd F → W → Writing (Dogstatsd F) W
  write_to d w = unless_failed from_gauges (write_counters (record { d = d; out = start w }))
