-- ===== src/Auth/Bytes.antt =====
-- Strings of bytes, as auth/basic and auth/jwt take them apart.
use Prim.Native.Char.{code}
use Prim.Native.String.{String}
use yoroi.Prelude.{
  ℕ, ◌≡◌, refl, Bool, true, false, Option, none, some, List, [], ◌∷◌, ◌++◌, arith, ◌==◌,
  if◌then◌else◌,
}

abbrev pub Bytes : Type 0
Bytes = List ℕ

-- The bytes of an ASCII text.
abbrev pub codes : String → Bytes
codes String.[] = []
codes (String.◌∷◌ first others) = code first ∷ codes others

-- strings.HasPrefix, with what is left.
unfoldable pub cut_prefix : Bytes → Bytes → Option Bytes
cut_prefix [] s = some s
cut_prefix (p ∷ ps) [] = none
cut_prefix (p ∷ ps) (c ∷ s) = if p == c then cut_prefix ps s else none

pub cut_prefix-append : (p s : Bytes) → cut_prefix p (p ++ s) ≡ some s
unfolding cut_prefix
cut_prefix-append [] s = refl
cut_prefix-append (c ∷ p) s = ground (arith, cut_prefix-append p s)

pub cut_prefix-some : (p s r : Bytes) → cut_prefix p s ≡ some r → s ≡ p ++ r
unfolding cut_prefix
cut_prefix-some [] s r h = ground arith
cut_prefix-some (c ∷ p) [] r h = cc
cut_prefix-some (c ∷ p) (d ∷ s) r h = ground (arith, cut_prefix-some p s r)

unfoldable pub has_byte : ℕ → Bytes → Bool
has_byte b [] = false
has_byte b (c ∷ s) = if c == b then true else has_byte b s

-- What stands before and after the first `b`.
unfoldable pub split_at : ℕ → Bytes → Option (Bytes × Bytes)
split_at b [] = none
split_at b (c ∷ s) =
    let rest = split_at b s in
    if c == b then some ([], s) else elim rest [ none ↦ none | some (u, v) ↦ some (c ∷ u, v) ]

pub split_at-append :
    (b : ℕ) (u v : Bytes) → has_byte b u ≡ false → split_at b (u ++ b ∷ v) ≡ some (u, v)
unfolding split_at has_byte
split_at-append b [] v h = ground arith
split_at-append b (c ∷ u) v h = ground (arith, split_at-append b u v)

pub split_at-some :
    (b : ℕ) (s u v : Bytes) → split_at b s ≡ some (u, v) → (s ≡ u ++ b ∷ v) × (has_byte b u ≡ false)
unfolding split_at has_byte
split_at-some b [] u v h = cc
split_at-some b (c ∷ s) [] v h = ground arith
split_at-some b (c ∷ s) (x ∷ u) v h = ground (arith, split_at-some b s u v)
