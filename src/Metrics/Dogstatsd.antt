-- ===== src/Metrics/Dogstatsd.antt =====
-- metrics/dogstatsd/dogstatsd.go. What metrics/influxstatsd/influxstatsd.go does otherwise is a
-- `Layout` here, and its operations are in Influxstatsd. Objects of type Gauge are shared, so they
-- are kept in a list and known by their place; label values are values. The tree of gauges is that of
-- a space whose lists hold the gauge of a node, if it has one. Locks and log lines are left out.
pub mod Lines
pub mod Gauges
pub mod NewGauge
pub mod Made
pub mod Passes
pub mod Writing
pub mod LostError
mod Tests
use Prim.Native.String.{◌++◌ as join}
use yoroi.Prelude.{
  ℕ, zero, suc, ◌+◌, ◌%◌, ◌==◌, String, Option, none, some, List, [], ◌∷◌, ◌++◌, Bool, true, false,
  not, ◌||◌, if◌then◌else◌, length, get_elem?, Assoc, lookup, insert,
}
use yoroi.Metrics.LabelValues.{complete}
use yoroi.Metrics.Ratemap.{set_rate, get_rate}
use yoroi.Metrics.Space.{
  Node, node, nil, descend, Space, new_space, observe_in, Visitor, walk, walk_nodes,
}
use yoroi.Metrics.Space.Series.{series}
use yoroi.Metrics.Emit.{Floats, IoWriter, Out, is_some, start}

-- Where the tags of a line stand, and how they are written.
pub record Layout : Type 0 where
  pub behind : Bool
  pub tag_mark : String
  pub pair_mark : String

abbrev pub dogstatsd_layout : Layout
dogstatsd_layout = record { behind = true; tag_mark = "|#"; pair_mark = ":" }

pub record Gauge {ℓ} (F : Type ℓ) : Type ℓ where
  pub value : F
  pub name : String
  pub lvs : List String
  pub set : Bool

-- The fields that lines are made with.
pub record Naming {ℓ} (F : Type ℓ) : Type ℓ where
  pub prefix : String
  pub rates : Assoc F
  pub lvs : List String

pub record Dogstatsd {ℓ} (F : Type ℓ) : Type ℓ where
  pub naming : Naming F
  pub counters : Space F
  pub gauges : Assoc (Node ℕ)
  -- all objects of type Gauge
  pub objects : List (Gauge F)
  pub timings : Space F
  pub histograms : Space F

-- A Counter, Timing or Histogram. Its function `obs` is known by the rate that it samples at.
pub record Observer {ℓ} (F : Type ℓ) : Type ℓ where
  pub name : String
  pub lvs : List String
  pub rate : F

abbrev pub first_gauge : List ℕ → Option ℕ
first_gauge [] = none
first_gauge (g ∷ gs) = some g

abbrev pub put_gauge : ℕ → List ℕ → List ℕ
put_gauge g [] = g ∷ []
put_gauge g (g' ∷ gs) = g' ∷ gs

abbrev pub returned_gauge : List String → Option (Node ℕ) → Option (Node ℕ × Option ℕ)
returned_gauge lvs none = none
returned_gauge lvs (some n) = some (n, first_gauge (series lvs n))

-- gaugeNode.addGauge, where `none` is a panic: the node afterwards, and the gauge that is returned.
unfoldable pub add_gauge : Node ℕ → ℕ → List String → Option (Node ℕ × Option ℕ)
add_gauge n g lvs = returned_gauge lvs (descend (put_gauge g) lvs n)

module _ {ℓ} {F : Type ℓ} where
  -- `none` is a panic, here and below.
  unfoldable pub new : String → List String → Option (Dogstatsd F)
  new prefix lvs =
      if length lvs % 2 == 0
      then some (record {
        naming = record { prefix = prefix; rates = []; lvs = lvs };
        counters = new_space;
        gauges = [];
        objects = [];
        timings = new_space;
        histograms = new_space;
      })
      else none

  -- NewCounter, NewTiming and NewHistogram
  unfoldable pub new_observer : Dogstatsd F → String → F → Dogstatsd F × Observer F
  new_observer d name rate = (
    record d { naming = record d.naming { rates = set_rate d.naming.rates name rate } },
    record { name = name; lvs = []; rate = rate },
  )

  -- With of Counter, Timing and Histogram
  unfoldable pub with_labels : Observer F → List String → Observer F
  with_labels o label_values = record o { lvs = o.lvs ++ complete label_values }

  abbrev pub fresh_gauge : F → Dogstatsd F → String → Dogstatsd F × Option ℕ
  fresh_gauge zero' d name =
      let g = length d.objects in
      (
        record d {
          gauges = insert name (node (g ∷ []) nil) d.gauges;
          objects = d.objects ++ record { value = zero'; name = name; lvs = []; set = false } ∷ [];
        },
        some g,
      )

  abbrev pub gauge_or_fresh : F → Dogstatsd F → String → Option (Node ℕ) → Dogstatsd F × Option ℕ
  gauge_or_fresh zero' d name none = fresh_gauge zero' d name
  gauge_or_fresh zero' d name (some (node own children)) = (d, first_gauge own)

  unfoldable pub new_gauge : F → Dogstatsd F → String → Dogstatsd F × Option ℕ
  new_gauge zero' d name = gauge_or_fresh zero' d name (lookup name d.gauges)

  abbrev pub update_at : List (Gauge F) → ℕ → (Gauge F → Gauge F) → List (Gauge F)
  update_at [] i f = []
  update_at (g ∷ gs) zero f = f g ∷ gs
  update_at (g ∷ gs) (suc i) f = g ∷ update_at gs i f

  -- Gauge.Set
  unfoldable pub set_gauge : Dogstatsd F → ℕ → F → Dogstatsd F
  set_gauge d g value' = record d {
    objects = update_at d.objects g (λ x. record x { value = value'; set = true });
  }

  -- Gauge.Add
  unfoldable pub add_to_gauge : (F → F → F) → Dogstatsd F → ℕ → F → Dogstatsd F
  add_to_gauge plus d g delta = record d {
    objects = update_at d.objects g (λ x. record x { value = plus x.value delta; set = true });
  }

  abbrev pub placed :
      Dogstatsd F → Gauge F → Option (Node ℕ × Option ℕ) → Option (Dogstatsd F × Option ℕ)
  placed d ga none = none
  placed d ga (some (n, g)) =
      some (record d { gauges = insert ga.name n d.gauges; objects = d.objects ++ ga ∷ [] }, g)

  abbrev pub placed_below :
      Dogstatsd F → Gauge F → Option (Node ℕ) → Option (Dogstatsd F × Option ℕ)
  placed_below d ga none = none
  placed_below d ga (some n) = placed d ga (add_gauge n (length d.objects) ga.lvs)

  abbrev pub with_of :
      Dogstatsd F → List String → Option (Gauge F) → Option (Dogstatsd F × Option ℕ)
  with_of d label_values none = none
  with_of d label_values (some g) =
      let ga = record g { lvs = g.lvs ++ complete label_values; set = false } in
      placed_below d ga (lookup g.name d.gauges)

  -- Gauge.With
  unfoldable pub gauge_with : Dogstatsd F → ℕ → List String → Option (Dogstatsd F × Option ℕ)
  unfolding add_gauge
  gauge_with d g label_values = with_of d label_values (get_elem? d.objects g)

module _ {ℓ} {F : Type ℓ} where
  abbrev pub with_space : (Space F → Dogstatsd F) → Option (Space F) → Option (Dogstatsd F)
  with_space put none = none
  with_space put (some s) = some (put s)

module _ {ℓ} {F : Type ℓ} (fl : Floats F) where
  -- sampleObservations: `draw` is what rand.Float64 returns.
  abbrev pub is_sampled : F → F → Bool
  is_sampled rate draw = fl.leq fl.one rate || not (fl.less rate draw)

  -- Counter.Add
  unfoldable pub counter_add : Dogstatsd F → Observer F → F → F → Option (Dogstatsd F)
  counter_add d c draw delta =
      if is_sampled c.rate draw
      then with_space (λ s. record d { counters = s }) (observe_in d.counters c.name c.lvs delta)
      else some d

  -- Timing.Observe
  unfoldable pub timing_observe : Dogstatsd F → Observer F → F → F → Option (Dogstatsd F)
  timing_observe d t draw value' =
      if is_sampled t.rate draw
      then with_space (λ s. record d { timings = s }) (observe_in d.timings t.name t.lvs value')
      else some d

  -- Histogram.Observe
  unfoldable pub histogram_observe : Dogstatsd F → Observer F → F → F → Option (Dogstatsd F)
  histogram_observe d h draw value' =
      if is_sampled h.rate draw
      then with_space (λ s. record d { histograms = s })
          (observe_in d.histograms h.name h.lvs value')
      else some d
