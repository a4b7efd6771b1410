-- ===== src/Metrics/Influxstatsd.antt =====
-- metrics/influxstatsd/influxstatsd.go: the operations of Dogstatsd with another layout of lines, and
-- without sampling.
use yoroi.Prelude.{ℕ, String, Option, List, false}
use yoroi.Metrics.Space.{Node, observe_in}
use yoroi.Metrics.Emit.{Floats, IoWriter, Writing}
use yoroi.Metrics.Dogstatsd as Dog
use yoroi.Metrics.Dogstatsd.{Layout, Dogstatsd, Observer, with_space}
use yoroi.Metrics.Dogstatsd.Lines as Lines

abbrev pub influxstatsd_layout : Layout
influxstatsd_layout = record { behind = false; tag_mark = ","; pair_mark = "=" }

abbrev pub Influxstatsd {ℓ} : Type ℓ → Type ℓ
Influxstatsd = Dogstatsd

module _ {ℓ} {F : Type ℓ} where
  unfoldable pub new : String → List String → Option (Influxstatsd F)
  new = Dog.new

  -- NewCounter, NewTiming and NewHistogram
  unfoldable pub new_observer : Influxstatsd F → String → F → Influxstatsd F × Observer F
  new_observer = Dog.new_observer

  unfoldable pub new_gauge : F → Influxstatsd F → String → Influxstatsd F × Option ℕ
  new_gauge = Dog.new_gauge

  unfoldable pub with_labels : Observer F → List String → Observer F
  with_labels = Dog.with_labels

  unfoldable pub counter_add : Influxstatsd F → Observer F → F → Option (Influxstatsd F)
  counter_add d c delta =
      with_space (λ s. record d { counters = s }) (observe_in d.counters c.name c.lvs delta)

  unfoldable pub timing_observe : Influxstatsd F → Observer F → F → Option (Influxstatsd F)
  timing_observe d t value' =
      with_space (λ s. record d { timings = s }) (observe_in d.timings t.name t.lvs value')

  unfoldable pub histogram_observe : Influxstatsd F → Observer F → F → Option (Influxstatsd F)
  histogram_observe d h value' =
      with_space (λ s. record d { histograms = s }) (observe_in d.histograms h.name h.lvs value')

  unfoldable pub gauge_with : Influxstatsd F → ℕ → List String → Option (Influxstatsd F × Option ℕ)
  gauge_with = Dog.gauge_with

  unfoldable pub set_gauge : Influxstatsd F → ℕ → F → Influxstatsd F
  set_gauge = Dog.set_gauge

  unfoldable pub add_to_gauge : (F → F → F) → Influxstatsd F → ℕ → F → Influxstatsd F
  add_to_gauge = Dog.add_to_gauge

unfoldable pub add_gauge : Node ℕ → ℕ → List String → Option (Node ℕ × Option ℕ)
add_gauge = Dog.add_gauge

module _ {F W : Type 0} (fl : Floats F) (io : IoWriter W) where
  unfoldable pub write_to : Influxstatsd F → W → Writing (Influxstatsd F) W
  write_to = Lines.write_to fl io influxstatsd_layout
