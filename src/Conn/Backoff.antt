-- ===== src/Conn/Backoff.antt =====
-- `Exponential` of util/conn/manager.go. Durations are nanoseconds. `product draw x` stands for the float
-- `float64(x) * (rand.Float64() + 0.5)`, as a number of units of 2^-53; `int64` drops its fraction.
use yoroi.Prelude.{ℕ, ◌*◌, ◌/◌, ◌^◌, ◌≤◌, arith, ltb, if◌then◌else◌}

abbrev pub second : ℕ
second = 1_000_000_000

abbrev pub minute : ℕ
minute = 60_000_000_000

-- A number of nanoseconds up to two minutes is a float, and so are a half of it and one and a half of it. The
-- factor is between 0.5 and 1.5, and a product is rounded to the nearest float.
pub record IsProduct (product : ℕ → ℕ → ℕ) : Type 0 where
  pub low : (draw x : ℕ) → x ≤ 2 * minute → x * 2 ^ 52 ≤ product draw x
  pub high : (draw x : ℕ) → x ≤ 2 * minute → product draw x ≤ 3 * x * 2 ^ 52

module _ (product : ℕ → ℕ → ℕ) where
  unfoldable pub exponential : ℕ → ℕ → ℕ
  exponential draw d =
      let d' = product draw (d * 2) / 2 ^ 53 in if ltb minute d' then minute else d'

  -- A float product with a random factor between 0.5 and 1.5, whose fraction is dropped, makes a wait of at most a
  -- minute never shorter and at most three times as long, and it stays at most a minute.
  pub exponential_bounds :
      (draw d : ℕ)
      → IsProduct product
      → d ≤ minute
      → (d ≤ exponential draw d) × (exponential draw d ≤ 3 * d) × (exponential draw d ≤ minute)
  unfolding exponential
  exponential_bounds draw d p h =
      let low = p.low draw (d * 2) (omega (arith, h)) in
      let high = p.high draw (d * 2) (omega (arith, h)) in
      let at_least : d ≤ product draw (d * 2) / 2 ^ 53 = omega (arith, low) in
      let at_most : product draw (d * 2) / 2 ^ 53 ≤ 3 * d = omega (arith, high) in
      ground (arith, h, at_least, at_most)
