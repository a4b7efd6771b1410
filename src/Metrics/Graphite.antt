-- ===== src/Metrics/Graphite.antt =====
-- metrics/graphite/graphite.go. A histogram is known by its quantiles, which `quantile` gives; `now`
-- is the Unix time as a text. Label values are not used, and locks and log lines are left out.
pub mod Lost
mod Tests
use Prim.Native.String.{◌++◌ as join}
use yoroi.Prelude.{
  ℕ, String, Option, none, some, List, [], ◌∷◌, ◌++◌, Bool, true, false, ◌||◌, Assoc, insert,
  if◌then◌else◌,
}
use yoroi.Metrics.Emit.{Floats, IoWriter, Out, is_some, emit, emit_all, start, Writing}

pub record Graphite {ℓ} (F H : Type ℓ) : Type ℓ where
  pub prefix : String
  pub counters : Assoc F
  pub gauges : Assoc F
  pub histograms : Assoc H

module _ {ℓ} {F H : Type ℓ} where
  -- NewCounter, NewGauge and NewHistogram: a metric is its full name, and starts as `fresh`.
  unfoldable pub new_counter : F → Graphite F H → String → Graphite F H
  new_counter fresh g name = record g { counters = insert (join g.prefix name) fresh g.counters }

  unfoldable pub new_gauge : F → Graphite F H → String → Graphite F H
  new_gauge fresh g name = record g { gauges = insert (join g.prefix name) fresh g.gauges }

  unfoldable pub new_histogram : H → Graphite F H → String → Graphite F H
  new_histogram fresh g name = record g {
    histograms = insert (join g.prefix name) fresh g.histograms;
  }

module _ {ℓ} {F : Type ℓ} (fl : Floats F) (now : String) where
  abbrev pub text_of : String → F → String
  text_of name value = join name (join " " (join (fl.text value) (join " " (join now "\n"))))

  abbrev pub line : String → F → Option String
  line name value = some (text_of name value)

  abbrev pub gauge_lines : Assoc F → List (Option String)
  gauge_lines [] = []
  gauge_lines ((name, value) ∷ rest) = line name value ∷ gauge_lines rest

-- The four quantiles that are written.
pub data Quantile : Type 0 where
  p50 : Quantile
  p90 : Quantile
  p95 : Quantile
  p99 : Quantile

module _ {ℓ} {F H : Type ℓ} (fl : Floats F) (now : String) (quantile : H → Quantile → F) where
  abbrev pub histogram_lines : Assoc H → List (Option String)
  histogram_lines [] = []
  histogram_lines ((name, h) ∷ rest) =
      line fl now (join name ".p50") (quantile h p50)
      ∷ line fl now (join name ".p90") (quantile h p90)
      ∷ line fl now (join name ".p95") (quantile h p95)
      ∷ line fl now (join name ".p99") (quantile h p99)
      ∷ histogram_lines rest

module _ {ℓ} {F W : Type ℓ} (fl : Floats F) (io : IoWriter W) (now : String) where
  abbrev pub go_on :
      String
      → Assoc F
      → (Out W → (Out W × Bool) × Assoc F)
      → Out W × Bool
      → (Out W × Bool) × Assoc F
  go_on name rest next (out, false) = ((out, false), (name, fl.zero) ∷ rest)
  go_on name rest next (out, true) = let (r, rest') = next out in (r, (name, fl.zero) ∷ rest')

  -- The loop over the counters, each of which is reset before its line is written.
  unfoldable pub write_counters : Assoc F → Out W → (Out W × Bool) × Assoc F
  write_counters [] out = ((out, true), [])
  write_counters ((name, value) ∷ rest) out =
      go_on name rest (write_counters rest) (emit io (line fl now name value) out)

module _ {ℓ} {F H W : Type ℓ} (fl : Floats F) (io : IoWriter W) (now : String)
    (quantile : H → Quantile → F) where
  -- The loops over the gauges and the histograms.
  abbrev pub after_counters : Graphite F H → Out W × Bool → Out W
  after_counters g (out, false) = out
  after_counters g (out, true) =
      (emit_all io (gauge_lines fl now g.gauges ++ histogram_lines fl now quantile g.histograms)
        out).0

  unfoldable pub write_to : Graphite F H → W → Writing (Graphite F H) W
  write_to g w =
      let (r, counters') = write_counters fl io now g.counters (start w) in
      record { d = record g { counters = counters' }; out = after_counters g r }
