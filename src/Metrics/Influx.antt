-- ===== src/Metrics/Influx.antt =====
-- metrics/influx/influx.go: WriteTo over the spaces of the metrics. `quantile` gives the quantiles of values, and
-- `refuses` the error of influxdb.NewPoint, if it has one. The time of the points is left out.
pub mod Flushing
mod Tests
use yoroi.Prelude.{
  ℕ, String, Option, none, some, List, [], ◌∷◌, ◌++◌, Bool, true, false, Assoc, insert,
}
use yoroi.Metrics.Emit.{Floats}
use yoroi.Metrics.Space.{Space, new_space, reset, walk_nodes}
use yoroi.Metrics.Graphite.{Quantile, p50, p90, p95, p99}

pub record Influx {ℓ} (F : Type ℓ) : Type ℓ where
  pub counters : Space F
  pub gauges : Space F
  pub histograms : Space F
  pub tags : Assoc String

pub record Point {ℓ} (F : Type ℓ) : Type ℓ where
  pub name : String
  pub tags : Assoc String
  pub fields : List (String × F)

-- The loop over the label values; `none` is a panic.
unfoldable pub add_labels : List String → Assoc String → Option (Assoc String)
add_labels [] ret = some ret
add_labels (l ∷ []) ret = none
add_labels (l ∷ v ∷ rest) ret = add_labels rest (insert l v ret)

unfoldable pub copy_tags : Assoc String → Assoc String → Assoc String
copy_tags [] ret = ret
copy_tags ((k, v) ∷ rest) ret = copy_tags rest (insert k v ret)

-- mergeTags
unfoldable pub merge_tags : Assoc String → List String → Option (Assoc String)
unfolding add_labels copy_tags
merge_tags tags label_values = add_labels label_values (copy_tags tags [])

module _ {ℓ} {F : Type ℓ} (fl : Floats F) where
  abbrev pub sum_from : F → List F → F
  sum_from v [] = v
  sum_from v (f ∷ fs) = sum_from (fl.plus v f) fs

  abbrev pub sum : List F → F
  sum a = sum_from fl.zero a

  -- `last`, of a list that is not empty.
  abbrev pub last_of : F → List F → F
  last_of x [] = x
  last_of x (y ∷ ys) = last_of y ys

  abbrev pub last : List F → F
  last [] = fl.zero
  last (x ∷ xs) = last_of x xs

  abbrev pub count_fields : List F → List (String × F)
  count_fields values = ("count", sum values) ∷ []

  abbrev pub value_fields : List F → List (String × F)
  value_fields values = ("value", last values) ∷ []

module _ {ℓ} {F : Type ℓ} (quantile : List F → Quantile → F) where
  abbrev pub quantile_fields : List F → List (String × F)
  quantile_fields values =
      ("p50", quantile values p50)
      ∷ ("p90", quantile values p90)
      ∷ ("p95", quantile values p95)
      ∷ ("p99", quantile values p99)
      ∷ []

-- The batch and the error while WriteTo runs.
pub record Out {ℓ} (F : Type ℓ) : Type ℓ where
  pub points : List (Point F)
  pub err : Option String
  pub panicked : Bool

module _ {ℓ} {F : Type ℓ} (refuses : Point F → Option String) where
  abbrev pub add_point : Point F → Option String → Out F → Out F × Bool
  add_point p none out = (record out { points = out.points ++ p ∷ [] }, true)
  add_point p (some e) out = (record out { err = some e }, false)

  abbrev pub make_point : String → List (String × F) → Option (Assoc String) → Out F → Out F × Bool
  make_point name fields none out = (record out { panicked = true }, false)
  make_point name fields (some tags) out =
      let p : Point F = record { name = name; tags = tags; fields = fields } in
      add_point p (refuses p) out

  -- The callback of each of the three walks.
  abbrev pub visit :
      Assoc String
      → (List F → List (String × F))
      → String
      → List String
      → List F
      → Out F
      → Out F × Bool
  visit tags fields name lvs values out = make_point name (fields values) (merge_tags tags lvs) out

-- What WriteTo returns, where `none` is a panic.
abbrev pub ended : Bool → Option String → Option (Option String)
ended true e = none
ended false e = some e

-- `write` is Write of a BatchPointsWriter.
module _ {ℓ} {F W : Type ℓ} (fl : Floats F) (quantile : List F → Quantile → F)
    (refuses : Point F → Option String) (write : W → List (Point F) → W × Option String) where
  abbrev pub finish : Influx F → W → Out F × Bool → Influx F × W × Option (Option String)
  finish influx w (out, true) = let (w', e) = write w out.points in (influx, w', some e)
  finish influx w (out, false) = (influx, w, ended out.panicked out.err)

  abbrev pub write_histograms : Influx F → W → Out F × Bool → Influx F × W × Option (Option String)
  write_histograms influx w (out, false) = (influx, w, ended out.panicked out.err)
  write_histograms influx w (out, true) =
      let (left, taken) = reset influx.histograms in
      finish (record influx { histograms = left }) w
        (walk_nodes (visit refuses influx.tags (quantile_fields quantile)) taken.nodes out)

  abbrev pub write_gauges : Influx F → W → Out F × Bool → Influx F × W × Option (Option String)
  write_gauges influx w (out, false) = (influx, w, ended out.panicked out.err)
  write_gauges influx w (out, true) =
      let (left, taken) = reset influx.gauges in
      write_histograms (record influx { gauges = left }) w
        (walk_nodes (visit refuses influx.tags (value_fields fl)) taken.nodes out)

  abbrev pub write_counters : Influx F → W → Influx F × W × Option (Option String)
  write_counters influx w =
      let (left, taken) = reset influx.counters in
      write_gauges (record influx { counters = left }) w
        (walk_nodes (visit refuses influx.tags (count_fields fl)) taken.nodes
          (record { points = []; err = none; panicked = false }))

  -- `conf_error` is what influxdb.NewBatchPoints says of the configuration.
  unfoldable pub write_to : Option String → Influx F → W → Influx F × W × Option (Option String)
  unfolding reset walk_nodes merge_tags
  write_to (some e) influx w = (influx, w, some (some e))
  write_to none influx w = write_counters influx w
