-- ===== src/Metrics/Statsd.antt =====
-- metrics/statsd/statsd.go. Label values are not used, so every name has one series. Locks and log
-- lines are left out.
pub mod Flushing
mod Tests
use Prim.Native.String.{◌++◌ as join}
use yoroi.Prelude.{ℕ, String, Option, none, some, List, [], ◌∷◌, Assoc}
use yoroi.Metrics.Ratemap.{set_rate, get_rate}
use yoroi.Metrics.Space.{Space, new_space, reset, observe_in, add_in, last, Visitor, walk_nodes}
use yoroi.Metrics.Emit.{
  Floats, IoWriter, Out, emit_all, start, sum, sampling, Writing, unless_failed,
}

pub record Statsd {ℓ} (F : Type ℓ) : Type ℓ where
  pub prefix : String
  pub rates : Assoc F
  pub counters : Space F
  pub gauges : Space F
  pub timings : Space F

module _ {ℓ} {F : Type ℓ} where
  unfoldable pub new : String → Statsd F
  new prefix = record {
    prefix = prefix;
    rates = [];
    counters = new_space;
    gauges = new_space;
    timings = new_space;
  }

  -- NewCounter and NewTiming: a counter and a timing are their name.
  unfoldable pub new_observer : Statsd F → String → F → Statsd F × String
  new_observer s name rate =
      let full = join s.prefix name in (record s { rates = set_rate s.rates full rate }, full)

  unfoldable pub new_gauge : Statsd F → String → String
  new_gauge s name = join s.prefix name

  abbrev pub with_space : (Space F → Statsd F) → Option (Space F) → Option (Statsd F)
  with_space put none = none
  with_space put (some x) = some (put x)

  -- Counter.Add
  unfoldable pub counter_add : Statsd F → String → F → Option (Statsd F)
  counter_add s name delta =
      with_space (λ x. record s { counters = x }) (observe_in s.counters name [] delta)

  -- Gauge.Set
  unfoldable pub set_gauge : Statsd F → String → F → Option (Statsd F)
  set_gauge s name value =
      with_space (λ x. record s { gauges = x }) (observe_in s.gauges name [] value)

  -- Gauge.Add
  unfoldable pub add_to_gauge : (F → F → F) → Statsd F → String → F → Option (Statsd F)
  add_to_gauge plus s name delta =
      with_space (λ x. record s { gauges = x }) (add_in plus s.gauges name [] delta)

  -- Timing.Observe
  unfoldable pub timing_observe : Statsd F → String → F → Option (Statsd F)
  timing_observe s name value =
      with_space (λ x. record s { timings = x }) (observe_in s.timings name [] value)

module _ {ℓ} {F : Type ℓ} (fl : Floats F) (rates : Assoc F) where
  abbrev pub line : String → String → String → String → Option String
  line name value kind rate =
      some (join name (join ":" (join value (join "|" (join kind (join rate "\n"))))))

  abbrev pub counter_line : String → List F → Option String
  counter_line name values =
      line name (fl.text (sum fl values)) "c" (sampling fl (get_rate fl.one rates name))

  -- `none` is the panic of `last`.
  abbrev pub gauge_line_of : String → Option F → Option String
  gauge_line_of name none = none
  gauge_line_of name (some value) = line name (fl.text value) "g" ""

  abbrev pub gauge_line : String → List F → Option String
  gauge_line name values = gauge_line_of name (last values)

  abbrev pub timing_lines : String → List F → List (Option String)
  timing_lines name [] = []
  timing_lines name (x ∷ xs) =
      line name (fl.text x) "ms" (sampling fl (get_rate fl.one rates name)) ∷ timing_lines name xs

module _ {ℓ} {F W : Type ℓ} (fl : Floats F) (io : IoWriter W) where
  unfoldable pub write_counters : Writing (Statsd F) W → Writing (Statsd F) W
  write_counters x = record {
    d = record x.d { counters = (reset x.d.counters).0 };
    out =
        (walk_nodes (λ name lvs values. emit_all io (counter_line fl x.d.rates name values ∷ []))
          (reset x.d.counters).1.nodes x.out).0;
  }

  unfoldable pub write_gauges : Writing (Statsd F) W → Writing (Statsd F) W
  write_gauges x = record {
    d = record x.d { gauges = (reset x.d.gauges).0 };
    out =
        (walk_nodes (λ name lvs values. emit_all io (gauge_line fl x.d.rates name values ∷ []))
          (reset x.d.gauges).1.nodes x.out).0;
  }

  unfoldable pub write_timings : Writing (Statsd F) W → Writing (Statsd F) W
  write_timings x = record {
    d = record x.d { timings = (reset x.d.timings).0 };
    out =
        (walk_nodes (λ name lvs values. emit_all io (timing_lines fl x.d.rates name values))
          (reset x.d.timings).1.nodes x.out).0;
  }

  abbrev pub from_gauges : Writing (Statsd F) W → Writing (Statsd F) W
  from_gauges x = unless_failed write_timings (write_gauges x)

  unfoldable pub write_to : Statsd F → W → Writing (Statsd F) W
  write_to s w = unless_failed from_gauges (write_counters (record { d = s; out = start w }))
