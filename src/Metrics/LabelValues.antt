-- ===== src/Metrics/LabelValues.antt =====
-- metrics/internal/lv/labelvalues.go, with the arrays that slices share. A slice is an array, by its
-- number, and a length; the length of an array is the capacity of the slices that start it.
pub mod Sharing
use yoroi.Prelude.{
  ℕ, zero, suc, ◌+◌, ◌-◌, ◌%◌, ◌≤◌, String, Option, none, some, List, [], ◌∷◌, ◌++◌, length,
  get_elem?, take, drop, leb, ◌==◌, if◌then◌else◌,
}

pub record LabelValues : Type 0 where
  pub array : ℕ
  pub len : ℕ

-- All arrays that have been made.
abbrev pub Heap : Type 0
Heap = List (List String)

abbrev pub cells : Heap → ℕ → List String
cells [] n = []
cells (a ∷ h) zero = a
cells (a ∷ h) (suc n) = cells h n

abbrev pub set_cells : Heap → ℕ → List String → Heap
set_cells [] n a = []
set_cells (b ∷ h) zero a = a ∷ h
set_cells (b ∷ h) (suc n) a = b ∷ set_cells h n a

-- What a slice holds.
abbrev pub read : Heap → LabelValues → List String
read h s = take s.len (cells h s.array)

abbrev pub blanks : ℕ → List String
blanks zero = []
blanks (suc n) = "" ∷ blanks n

-- Go's `append`: in the array if it has room behind the slice, else in a new array, with as much
-- room to spare as the runtime decides.
pub append : (ℕ → ℕ) → Heap → LabelValues → List String → Heap × LabelValues
append spare h s vs =
    let a = cells h s.array in
    let n = s.len + length vs in
    if leb n (length a)
    then (set_cells h s.array (take s.len a ++ (vs ++ drop n a)), record s { len = n })
    else (
      h ++ (take s.len a ++ (vs ++ blanks (spare n))) ∷ [],
      record { array = length h; len = n },
    )

abbrev pub complete : List String → List String
complete label_values =
    if length label_values % 2 == 0 then label_values else label_values ++ "unknown" ∷ []

pub with : (ℕ → ℕ) → Heap → LabelValues → List String → Heap × LabelValues
unfolding append
with spare h lvs label_values = append spare h lvs (complete label_values)
