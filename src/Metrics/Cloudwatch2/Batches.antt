-- ===== src/Metrics/Cloudwatch2/Batches.antt =====
-- The batches that Send of metrics/cloudwatch2/cloudwatch2.go cuts its datums into.
use yoroi.Prelude.{
  ℕ, zero, suc, ◌+◌, ◌-◌, ◌≤◌, ◌<◌, ◌≡◌, refl, List, [], ◌∷◌, Bool, arith, length, take, drop,
  if◌then◌else◌,
}
use yoroi.Metrics.Cloudwatch2.{limit, cut}

limit_bounds : (n : ℕ) → (limit n ≤ n) × (limit n ≤ 20) × (0 < n → 0 < limit n)
limit_bounds n = ground arith

module _ {ℓ} {D : Type ℓ} where
  -- How many of the datums, and of those in batches, pass a test.
  abbrev pub count : (D → Bool) → List D → ℕ
  count p [] = 0
  count p (d ∷ ds) = (if p d then 1 else 0) + count p ds

  abbrev pub total : (D → Bool) → List (List D) → ℕ
  total p [] = 0
  total p (b ∷ bs) = count p b + total p bs

  abbrev pub IsSmall : List (List D) → Type 0
  IsSmall [] = Unit
  IsSmall (b ∷ bs) = (0 < length b) × (length b ≤ 20) × IsSmall bs

  count_split :
      (p : D → Bool) (n : ℕ) (ds : List D) → count p (take n ds) + count p (drop n ds) ≡ count p ds
  count_split p zero ds = omega arith
  count_split p (suc n) [] = omega arith
  count_split p (suc n) (d ∷ ds) = omega (arith, count_split p n ds)

  length-take : (n : ℕ) (ds : List D) → n ≤ length ds → length (take n ds) ≡ n
  length-take zero ds h = refl
  length-take (suc n) [] h = absurd (omega (arith, h))
  length-take (suc n) (d ∷ ds) h = omega (arith, length-take n ds (omega (arith, h)))

  length-drop : (n : ℕ) (ds : List D) → length (drop n ds) ≡ length ds - n
  length-drop zero ds = omega arith
  length-drop (suc n) [] = omega arith
  length-drop (suc n) (d ∷ ds) = omega (arith, length-drop n ds)

  pub total-cut :
      (p : D → Bool) (fuel : ℕ) (ds : List D)
      → length ds ≤ fuel
      → total p (cut fuel ds) ≡ count p ds
  unfolding cut
  total-cut p zero [] h = refl
  total-cut p zero (d ∷ ds) h = absurd (omega (arith, h))
  total-cut p (suc fuel) [] h = refl
  total-cut p (suc fuel) (d ∷ ds) h =
      let n = limit (length (d ∷ ds)) in
      let b = limit_bounds (length (d ∷ ds)) in
      let shorter : length (drop n (d ∷ ds)) ≤ fuel =
        omega (arith, h, b.2 (omega arith), length-drop n (d ∷ ds)) in
      omega (arith, total-cut p fuel (drop n (d ∷ ds)) shorter, count_split p n (d ∷ ds))

  pub cut-IsSmall : (fuel : ℕ) (ds : List D) → IsSmall (cut fuel ds)
  unfolding cut
  cut-IsSmall zero ds = tt
  cut-IsSmall (suc fuel) [] = tt
  cut-IsSmall (suc fuel) (d ∷ ds) =
      let n = limit (length (d ∷ ds)) in
      let b = limit_bounds (length (d ∷ ds)) in
      let l = length-take n (d ∷ ds) b.0 in
      (
        omega (arith, l, b.2 (omega arith)),
        omega (arith, l, b.1),
        cut-IsSmall fuel (drop n (d ∷ ds)),
      )
