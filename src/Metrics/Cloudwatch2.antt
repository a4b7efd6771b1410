-- ===== src/Metrics/Cloudwatch2.antt =====
-- metrics/cloudwatch2/cloudwatch2.go. Send is modelled up to its goroutines, one for each batch, whose steps
-- are events: one gets a place in the channel `sem` and calls PutMetricData, or that call returns and the place
-- is given back. `T` stands for times.
pub mod Batches
pub mod Deliveries
mod Tests
use yoroi.Prelude.{
  ℕ, zero, suc, ◌+◌, String, Option, none, some, List, [], ◌∷◌, ◌++◌, Bool, true, false, ltb,
  length, take, drop, get_elem?, if◌then◌else◌,
}
use yoroi.Metrics.Emit.{Floats}
use yoroi.Metrics.Space.{Space, new_space, reset, walk_nodes}

pub record Dimension : Type 0 where
  pub name : String
  pub value : String

pub record StatisticSet {ℓ} (F : Type ℓ) : Type ℓ where
  pub maximum : F
  pub minimum : F
  pub sum : F
  pub sample_count : F

pub record MetricDatum {ℓ} (F T : Type ℓ) : Type ℓ where
  pub metric_name : String
  pub dimensions : List Dimension
  pub statistic_values : StatisticSet F
  pub timestamp : T

-- math.MaxFloat64, its opposite, and the float of a length.
pub record Limits {ℓ} (F : Type ℓ) : Type ℓ where
  pub max_float : F
  pub min_float : F
  pub of_length : ℕ → F

-- An odd number of label values panics.
abbrev pub add_dimension : String → String → Option (List Dimension) → Option (List Dimension)
add_dimension l v none = none
add_dimension l v (some ds) = some (record { name = l; value = v } ∷ ds)

unfoldable pub make_dimensions : List String → Option (List Dimension)
make_dimensions [] = some []
make_dimensions (l ∷ []) = none
make_dimensions (l ∷ v ∷ rest) = add_dimension l v (make_dimensions rest)

module _ {ℓ} {F : Type ℓ} (fl : Floats F) where
  -- The loop of `stats`.
  unfoldable pub add_values : StatisticSet F → List F → StatisticSet F
  add_values s [] = s
  add_values s (f ∷ fs) =
      add_values
        (record s {
          sum = fl.plus s.sum f;
          minimum = if fl.less f s.minimum then f else s.minimum;
          maximum = if fl.less s.maximum f then f else s.maximum;
        })
        fs

  unfoldable pub stats : Limits F → List F → StatisticSet F
  unfolding add_values
  stats lim [] = record {
    maximum = fl.zero;
    minimum = fl.zero;
    sum = fl.zero;
    sample_count = fl.zero;
  }
  stats lim (x ∷ xs) =
      add_values
        (record {
          maximum = lim.min_float;
          minimum = lim.max_float;
          sum = fl.zero;
          sample_count = lim.of_length (length (x ∷ xs));
        })
        (x ∷ xs)

module _ {ℓ} {F T : Type ℓ} (fl : Floats F) (lim : Limits F) (now : T) where
  -- The callback of `Walk`; the Boolean tells of a panic.
  abbrev pub append_datum :
      String
      → List F
      → Option (List Dimension)
      → List (MetricDatum F T) × Bool
      → (List (MetricDatum F T) × Bool) × Bool
  append_datum name values none (datums, panicked) = ((datums, true), false)
  append_datum name values (some ds) (datums, panicked) = (
    (
      datums
          ++ record {
            metric_name = name;
            dimensions = ds;
            statistic_values = stats fl lim values;
            timestamp = now;
          }
            ∷ [],
      panicked,
    ),
    true,
  )

  unfoldable pub collect : Space F → List (MetricDatum F T) × Bool
  unfolding walk_nodes make_dimensions
  collect s =
      (walk_nodes (λ name lvs values acc. append_datum name values (make_dimensions lvs) acc)
        s.nodes ([], false)).0

abbrev pub max_concurrent_requests : ℕ
max_concurrent_requests = 20

abbrev pub limit : ℕ → ℕ
limit n = if ltb max_concurrent_requests n then max_concurrent_requests else n

-- The goroutines of Send: the batches whose goroutine waits for a place, those for which PutMetricData runs,
-- all for which it was called, the last one first, and the error of the group.
pub record Sending {ℓ} (D : Type ℓ) : Type ℓ where
  pub capacity : ℕ
  pub waiting : List (List D)
  pub running : List (List D)
  pub put : List (List D)
  pub err : Option String

pub data Event : Type 0 where
  acquires : ℕ → Event
  answers : ℕ → Option String → Event

abbrev pub remove_at {ℓ} : {A : Type ℓ} → List A → ℕ → List A
remove_at [] i = []
remove_at (x ∷ xs) zero = xs
remove_at (x ∷ xs) (suc i) = x ∷ remove_at xs i

abbrev pub first_error : Option String → Option String → Option String
first_error none e = e
first_error (some x) e = some x

module _ {ℓ} {D : Type ℓ} where
  -- The loop that cuts the datums, with fuel.
  unfoldable pub cut : ℕ → List D → List (List D)
  cut zero datums = []
  cut (suc fuel) [] = []
  cut (suc fuel) (d ∷ ds) =
      let lim = limit (length (d ∷ ds)) in
      let rest = cut fuel (drop lim (d ∷ ds)) in take lim (d ∷ ds) ∷ rest

  -- As many rounds as there are datums are enough.
  abbrev pub batches_of : List D → List (List D)
  batches_of datums = cut (length datums) datums

  abbrev pub acquire : Sending D → ℕ → Option (List D) → Sending D
  acquire s i none = s
  acquire s i (some batch) = record s {
    waiting = remove_at s.waiting i;
    running = batch ∷ s.running;
    put = batch ∷ s.put;
  }

  abbrev pub answer : Sending D → ℕ → Option String → Option (List D) → Sending D
  answer s i e none = s
  answer s i e (some batch) = record s {
    running = remove_at s.running i;
    err = first_error s.err e;
  }

  -- A step that cannot be taken changes nothing: it waits.
  unfoldable pub step : Sending D → Event → Sending D
  step s (acquires i) =
      if ltb (length s.running) s.capacity then acquire s i (get_elem? s.waiting i) else s
  step s (answers i e) = answer s i e (get_elem? s.running i)

  unfoldable pub run : Sending D → List Event → Sending D
  run s [] = s
  run s (e ∷ es) = run (step s e) es

  -- From the start of the goroutines on.
  unfoldable pub start : ℕ → List D → Sending D
  unfolding cut
  start capacity datums = record {
    capacity = capacity;
    waiting = batches_of datums;
    running = [];
    put = [];
    err = none;
  }

  -- What g.Wait returns, once all goroutines have.
  abbrev pub wait : Sending D → List (List D) → List (List D) → Option (Option String)
  wait s [] [] = some s.err
  wait s [] (b ∷ bs) = none
  wait s (b ∷ bs) running = none

  abbrev pub returned : Sending D → Option (Option String)
  returned s = wait s s.waiting s.running

-- The number of requests is not negative; New panics for such a one.
pub record CloudWatch {ℓ} (F : Type ℓ) : Type ℓ where
  pub counters : Space F
  pub num_concurrent_requests : ℕ

module _ {ℓ} {F : Type ℓ} where
  abbrev pub with_concurrent_requests : ℕ → CloudWatch F → CloudWatch F
  with_concurrent_requests n cw = record cw { num_concurrent_requests = limit n }

  unfoldable pub new : List (CloudWatch F → CloudWatch F) → CloudWatch F → CloudWatch F
  new [] cw = cw
  new (f ∷ fs) cw = new fs (f cw)

  unfoldable pub new_cloud_watch : List (CloudWatch F → CloudWatch F) → CloudWatch F
  unfolding new new_space
  new_cloud_watch options =
      new options (record { counters = new_space; num_concurrent_requests = 10 })

module _ {ℓ} {F T : Type ℓ} (fl : Floats F) (lim : Limits F) (now : T) where
  -- `none` is a panic.
  abbrev pub started : ℕ → List (MetricDatum F T) × Bool → Option (Sending (MetricDatum F T))
  started n (datums, true) = none
  started n (datums, false) = some (start n datums)

  unfoldable pub send : CloudWatch F → CloudWatch F × Option (Sending (MetricDatum F T))
  unfolding reset collect start
  send cw =
      let (left, taken) = reset cw.counters in
      (record cw { counters = left }, started cw.num_concurrent_requests (collect fl lim now taken))
