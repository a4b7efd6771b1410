-- ===== src/Prelude/Maps.antt =====
-- Go maps with string keys, as association lists. No program text depends on their order.
use Prim.Native.String.{String}
use mathlib.Core.Path.{◌≡◌, refl}
use mathlib.Core.List.{List, [], ◌∷◌}
use mathlib.Core.Option.{Option, none, some}
use native.Mathlib.Omega.{arith}
use text.Mathlib.Text.{◌==◌ as str_eq}
use text.Mathlib.TextEquality.{eq_iff}
use yoroi.Prelude.Tests.{if◌then◌else◌}

abbrev pub Assoc {ℓ} : Type ℓ → Type ℓ
Assoc V = List (String × V)

module _ {ℓ} {V : Type ℓ} where
  -- m[key]
  unfoldable pub lookup : (key : String) → Assoc V → Option V
  lookup key [] = none
  lookup key (entry ∷ m) = if str_eq entry.0 key then some entry.1 else lookup key m

  -- m[key] = v
  unfoldable pub insert : (key : String) → V → Assoc V → Assoc V
  insert key v [] = (key, v) ∷ []
  insert key v (entry ∷ m) = if str_eq entry.0 key then (key, v) ∷ m else entry ∷ insert key v m

  -- delete(m, key)
  unfoldable pub remove : (key : String) → Assoc V → Assoc V
  remove key [] = []
  remove key (entry ∷ m) =
      let others = remove key m in if str_eq entry.0 key then others else entry ∷ others

  -- Each key stands once.
  abbrev pub IsMap : Assoc V → Type ℓ
  IsMap [] = Unit
  IsMap (entry ∷ m) = (lookup entry.0 m ≡ none) × IsMap m

  -- What a key holds after a write.
  pub lookup-insert :
      (written read : String) (v : V) (table : Assoc V)
      → lookup read (insert written v table)
        ≡ (if str_eq written read then some v else lookup read table)
  unfolding insert lookup
  lookup-insert written read v [] = refl
  lookup-insert written read v (entry ∷ table) = ground (
    arith,
    lookup-insert written read v table,
    eq_iff written read,
    eq_iff entry.0 read,
    eq_iff entry.0 written,
  )

  -- What a key holds after a delete.
  pub lookup-remove :
      (deleted read : String) (table : Assoc V)
      → lookup read (remove deleted table)
        ≡ (if str_eq deleted read then none else lookup read table)
  unfolding remove lookup
  lookup-remove deleted read [] = ground arith
  lookup-remove deleted read (entry ∷ table) = ground (
    arith,
    lookup-remove deleted read table,
    eq_iff deleted read,
    eq_iff entry.0 read,
    eq_iff entry.0 deleted,
  )

  pub insert-IsMap : (key : String) (v : V) (m : Assoc V) → IsMap m → IsMap (insert key v m)
  unfolding insert lookup
  insert-IsMap key v [] h = (refl, tt)
  insert-IsMap key v (entry ∷ m) h = ground (
    arith,
    insert-IsMap key v m h.1,
    lookup-insert key entry.0 v m,
    eq_iff entry.0 key,
    eq_iff key entry.0,
  )

  pub remove-IsMap : (key : String) (m : Assoc V) → IsMap m → IsMap (remove key m)
  unfolding remove lookup
  remove-IsMap key [] h = tt
  remove-IsMap key (entry ∷ m) h = ground (
    arith,
    remove-IsMap key m h.1,
    lookup-remove key entry.0 m,
    eq_iff entry.0 key,
    eq_iff key entry.0,
  )

  -- Removing a key that is not there changes nothing.
  pub remove_absent : (key : String) (m : Assoc V) → lookup key m ≡ none → remove key m ≡ m
  unfolding remove lookup
  remove_absent key [] h = refl
  remove_absent key (entry ∷ m) h = ground (arith, remove_absent key m)
