-- ===== src/Metrics/Generic.antt =====
-- metrics/generic/generic.go: counters and gauges, used by several goroutines at once. A value is the
-- bits of a float64; `add_bits` is the sum of two floats, on their bits. A call is one or two atomic
-- steps, and goes back to the first one when its compare-and-swap fails.
pub mod Atomic
pub mod Progress
mod Tests
use yoroi.Prelude.{ℕ, ◌==◌, String, Option, none, some, List, [], ◌∷◌, ◌++◌, if◌then◌else◌}
use yoroi.Metrics.LabelValues.{complete}

-- A counter or a gauge as a value; how label values share arrays is the matter of LabelValues.
pub record Metric : Type 0 where
  pub bits : ℕ
  pub name : String
  pub lvs : List String

abbrev pub new_metric : String → Metric
new_metric name = record { bits = 0; name = name; lvs = [] }

-- `With`: the new metric starts with the value that the old one has.
abbrev pub with_labels : Metric → List String → Metric
with_labels m label_values = record m { lvs = m.lvs ++ complete label_values }

-- Add of both, ValueReset of counters, Set of gauges, Value of both.
pub data Call : Type 0 where
  adds : ℕ → Call
  resets : Call
  sets : ℕ → Call
  reads : Call

-- A call that has returned, with what it returned.
pub data Done : Type 0 where
  added : ℕ → Done
  was_reset : ℕ → Done
  was_set : ℕ → Done
  was_read : ℕ → Done

-- A goroutine with the calls that it still makes; `old` is what the current one has loaded.
pub record Thread : Type 0 where
  pub calls : List Call
  pub old : Option ℕ

pub record Step : Type 0 where
  pub bits : ℕ
  pub thread : Thread
  pub done : Option Done

-- atomic.CompareAndSwapUint64, and the end of the call or of this round of its loop.
abbrev pub compare_and_swap : ℕ → ℕ → ℕ → List Call → List Call → Done → Step
compare_and_swap bits old new now next done =
    if bits == old
    then record { bits = new; thread = record { calls = next; old = none }; done = some done }
    else record { bits = bits; thread = record { calls = now; old = none }; done = none }

abbrev pub load : ℕ → List Call → Step
load bits now = record {
  bits = bits;
  thread = record { calls = now; old = some bits };
  done = none;
}

abbrev pub at_once : ℕ → List Call → Done → Step
at_once bits next done = record {
  bits = bits;
  thread = record { calls = next; old = none };
  done = some done;
}

module _ (add_bits : ℕ → ℕ → ℕ) where
  -- Counter.Add and Gauge.Add
  abbrev pub add : ℕ → ℕ → List Call → Option ℕ → Step
  add delta bits next none = load bits (adds delta ∷ next)
  add delta bits next (some old) =
      compare_and_swap bits old (add_bits old delta) (adds delta ∷ next) next (added delta)

  -- Counter.ValueReset
  abbrev pub value_reset : ℕ → List Call → Option ℕ → Step
  value_reset bits next none = load bits (resets ∷ next)
  value_reset bits next (some old) =
      compare_and_swap bits old 0 (resets ∷ next) next (was_reset old)

  abbrev pub thread_step : ℕ → List Call → Option ℕ → Step
  thread_step bits [] old = record {
    bits = bits;
    thread = record { calls = []; old = old };
    done = none;
  }
  thread_step bits (adds delta ∷ next) old = add delta bits next old
  thread_step bits (resets ∷ next) old = value_reset bits next old
  thread_step bits (sets value ∷ next) old = at_once value next (was_set value)
  thread_step bits (reads ∷ next) old = at_once bits next (was_read bits)

-- The calls that have returned are kept with their goroutine, the last one first.
pub record System : Type 0 where
  pub bits : ℕ
  pub threads : ℕ → Thread
  pub log : List (ℕ × Done)

abbrev pub logged : ℕ → Option Done → List (ℕ × Done) → List (ℕ × Done)
logged i none log = log
logged i (some done) log = (i, done) ∷ log

abbrev pub applied : System → ℕ → Step → System
applied s i t = record {
  bits = t.bits;
  threads = λ j. if i == j then t.thread else s.threads j;
  log = logged i t.done s.log;
}

module _ (add_bits : ℕ → ℕ → ℕ) where
  -- The scheduler picks a goroutine.
  unfoldable pub step : System → ℕ → System
  step s i = applied s i (thread_step add_bits s.bits (s.threads i).calls (s.threads i).old)

  unfoldable pub run : System → List ℕ → System
  run s [] = s
  run s (i ∷ is) = run (step s i) is
