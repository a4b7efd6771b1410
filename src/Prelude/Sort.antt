-- ===== src/Prelude/Sort.antt =====
-- `sort.Strings` as insertion sort, membership, and lists without repetition.
use Prim.Native.Nat.{Ordering}
use Prim.Native.String.{String, compare}
use mathlib.Core.Path.{◌≡◌, refl}
use mathlib.Core.Bool.{Bool, true, false, ◌||◌}
use mathlib.Core.List.{List, [], ◌∷◌}
use native.Mathlib.Omega.{arith}
use text.Mathlib.Text.{◌==◌}
use text.Mathlib.TextEquality.{eq_iff}
use yoroi.Prelude.Tests.{if◌then◌else◌}

-- s <= t in the order of Go's strings
unfoldable pub str_leb : String → String → Bool
str_leb s t = elim (compare s t) [ Ordering.gt ↦ false | _ ↦ true ]

unfoldable pub insert_sorted : String → List String → List String
insert_sorted x [] = x ∷ []
insert_sorted x (y ∷ ys) = if str_leb x y then x ∷ y ∷ ys else y ∷ insert_sorted x ys

unfoldable pub sort : List String → List String
unfolding insert_sorted str_leb
sort [] = []
sort (x ∷ xs) = insert_sorted x (sort xs)

unfoldable pub member : String → List String → Bool
member k [] = false
member k (x ∷ xs) = x == k || member k xs

-- No string stands twice.
abbrev pub Distinct : List String → Type 0
Distinct [] = Unit
Distinct (x ∷ xs) = (member x xs ≡ false) × Distinct xs

member-insert_sorted :
    (k x : String) (ys : List String) → member k (insert_sorted x ys) ≡ (x == k || member k ys)
unfolding member insert_sorted
member-insert_sorted k x [] = refl
member-insert_sorted k x (y ∷ ys) = ground (arith, member-insert_sorted k x ys)

pub member-sort : (k : String) (xs : List String) → member k (sort xs) ≡ member k xs
unfolding member sort
member-sort k [] = refl
member-sort k (x ∷ xs) = ground (arith, member-insert_sorted k x (sort xs), member-sort k xs)

insert_sorted-Distinct :
    (x : String) (ys : List String)
    → member x ys ≡ false
    → Distinct ys
    → Distinct (insert_sorted x ys)
unfolding member insert_sorted
insert_sorted-Distinct x [] h d = (refl, tt)
insert_sorted-Distinct x (y ∷ ys) h d =
    ground (arith, eq_iff x y, eq_iff y x, member-insert_sorted y x ys, insert_sorted-Distinct x ys)

pub sort-Distinct : (xs : List String) → Distinct xs → Distinct (sort xs)
unfolding sort member
sort-Distinct [] d = tt
sort-Distinct (x ∷ xs) d =
    insert_sorted-Distinct x (sort xs) (ground (arith, member-sort x xs)) (sort-Distinct xs d.1)
