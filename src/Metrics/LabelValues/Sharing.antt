-- ===== src/Metrics/LabelValues/Sharing.antt =====
-- What `With` of metrics/internal/lv/labelvalues.go returns, and whom it overwrites.
use mathlib.Core.List.{append_assoc}
use yoroi.Prelude.{
  ℕ, zero, suc, ◌+◌, ◌%◌, ◌≤◌, ◌<◌, ◌≡◌, ◌∙◌, refl, ap, inl, inr, String, List, [], ◌∷◌, ◌++◌,
  length, take, drop, length-append, arith, leb, Bool-cases,
}
use yoroi.Metrics.LabelValues.{
  LabelValues, Heap, cells, set_cells, read, blanks, append, complete, with,
}

-- The slice lies in an array of the heap.
pub record IsSlice (h : Heap) (s : LabelValues) : Type 0 where
  pub in_heap : s.array < length h
  pub in_array : s.len ≤ length (cells h s.array)

cells-set_cells :
    (h : Heap) (n : ℕ) (a : List String) → n < length h → cells (set_cells h n a) n ≡ a
cells-set_cells [] n a l = absurd (omega arith)
cells-set_cells (b ∷ h) zero a l = refl
cells-set_cells (b ∷ h) (suc n) a l = cells-set_cells h n a (omega arith)

cells_new : (h : Heap) (a : List String) → cells (h ++ a ∷ []) (length h) ≡ a
cells_new [] a = refl
cells_new (b ∷ h) a = cells_new h a

take-append : (xs ys : List String) (n : ℕ) → length xs ≡ n → take n (xs ++ ys) ≡ xs
take-append [] ys zero e = refl
take-append [] ys (suc n) e = absurd (omega arith)
take-append (x ∷ xs) ys zero e = absurd (omega arith)
take-append (x ∷ xs) ys (suc n) e = ap (◌∷◌ x) (take-append xs ys n (omega arith))

length-take : (xs : List String) (n : ℕ) → n ≤ length xs → length (take n xs) ≡ n
length-take xs zero h = refl
length-take [] (suc n) h = absurd (omega arith)
length-take (x ∷ xs) (suc n) h = ap suc (length-take xs n (omega arith))

take-append3 :
    (u v w : List String) (n : ℕ) → length u + length v ≡ n → take n (u ++ (v ++ w)) ≡ u ++ v
take-append3 u v w n e =
    rw (← append_assoc) (take-append (u ++ v) w n (omega (arith, length-append u v)))

complete-even : (vs : List String) → length (complete vs) % 2 ≡ 0
complete-even vs = ground (arith, length-append vs ("unknown" ∷ []))

module _ (spare : ℕ → ℕ) (h : Heap) (s : LabelValues) where
  -- `append` with room in the array.
  abbrev in_place : List String → Heap
  in_place vs =
      set_cells h s.array
        (take s.len (cells h s.array) ++ (vs ++ drop (s.len + length vs) (cells h s.array)))

  append_fits :
      (vs : List String)
      → s.len + length vs ≤ length (cells h s.array)
      → append spare h s vs ≡ (in_place vs, record { array = s.array; len = s.len + length vs })
  unfolding append
  append_fits vs fits = ground arith

  read-append :
      (vs : List String)
      → IsSlice h s
      → read (append spare h s vs).0 (append spare h s vs).1 ≡ read h s ++ vs
  unfolding append
  read-append vs v = elim (Bool-cases (leb (s.len + length vs) (length (cells h s.array)))) [
    | inl q ↦
        rw
          (
            q,
            cells-set_cells h s.array
                (take s.len (cells h s.array) ++ (vs ++ drop (s.len + length vs) (cells h s.array)))
                v.in_heap,
          )
          (take-append3 _ vs _ _ (omega (arith, length-take _ s.len v.in_array)))
    | inr q ↦
        rw
          (
            q,
            cells_new h
                (take s.len (cells h s.array) ++ (vs ++ blanks (spare (s.len + length vs)))),
          )
          (take-append3 _ vs _ _ (omega (arith, length-take _ s.len v.in_array)))
  ]

  -- The new label values are the old ones followed by the given ones, completed to an even number,
  -- whether or not a new array was made.
  pub read-with :
      (vs : List String)
      → IsSlice h s
      → (read (with spare h s vs).0 (with spare h s vs).1 ≡ read h s ++ complete vs)
        × (length (complete vs) % 2 ≡ 0)
  unfolding with
  read-with vs v = (read-append (complete vs) v, complete-even vs)

length-set_cells : (h : Heap) (n : ℕ) (a : List String) → length (set_cells h n a) ≡ length h
length-set_cells [] n a = refl
length-set_cells (b ∷ h) zero a = refl
length-set_cells (b ∷ h) (suc n) a = ap suc (length-set_cells h n a)

module _ (spare : ℕ → ℕ) (h : Heap) (s : LabelValues) where
  -- Two slices made from one, where its array has room for both, share the room.
  append_twice :
      (us vs : List String)
      → IsSlice h s
      → s.len + length us ≤ length (cells h s.array)
      → length us ≡ length vs
      → let (h', s') = append spare h s us in
        let (h'', s'') = append spare h' s vs in read h'' s' ≡ read h s ++ vs
  append_twice us vs v fits same =
      let a = cells h s.array in
      let h' = in_place spare h s us in
      let b = take s.len a ++ (us ++ drop (s.len + length us) a) in
      let here : cells h' s.array ≡ b = cells-set_cells h s.array b v.in_heap in
      let start = length-take a s.len v.in_array in
      let kept : take s.len (cells h' s.array) ≡ take s.len a =
        ap (take s.len) here ∙ take-append (take s.len a) _ s.len start in
      let room : s.len + length vs ≤ length b = omega (
        arith,
        same,
        start,
        length-append (take s.len a) (us ++ drop (s.len + length us) a),
        length-append us (drop (s.len + length us) a),
      ) in
      let fits' : s.len + length vs ≤ length (cells h' s.array) = rw here room in
      let rest = drop (s.len + length vs) (cells h' s.array) in
      let there =
        cells-set_cells h' s.array (take s.len (cells h' s.array) ++ (vs ++ rest))
          (rw (length-set_cells h s.array b) v.in_heap) in
      rw (append_fits spare h s us fits, append_fits spare h' s vs fits')
        (ap (take (s.len + length us)) there
          ∙ take-append3 (take s.len (cells h' s.array)) vs rest (s.len + length us)
              (omega (arith, same, start, ap length kept))
          ∙ ap (λ (l : List String). l ++ vs) kept)

  -- Two metrics that are made by `With` from one whose label values have room to spare, with as many
  -- labels each, share that room: the first now carries the labels of the second.
  pub with_overwrites :
      (us vs : List String)
      → IsSlice h s
      → s.len + length (complete us) ≤ length (cells h s.array)
      → length (complete us) ≡ length (complete vs)
      → let (h', s') = with spare h s us in
        let (h'', s'') = with spare h' s vs in read h'' s' ≡ read h s ++ complete vs
  unfolding with
  with_overwrites us vs v fits same = append_twice (complete us) (complete vs) v fits same
