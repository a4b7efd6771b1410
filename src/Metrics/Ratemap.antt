-- ===== src/Metrics/Ratemap.antt =====
-- metrics/internal/ratemap/ratemap.go. `one` is the rate 1.0.
use yoroi.Prelude.{String, Option, none, some, [], Assoc, lookup, insert}

module _ {ℓ} {F : Type ℓ} where
  abbrev pub new_ratemap : Assoc F
  new_ratemap = []

  abbrev pub set_rate : Assoc F → String → F → Assoc F
  set_rate m name rate = insert name rate m

  abbrev pub rate_or : F → Option F → F
  rate_or one none = one
  rate_or one (some rate) = rate

  abbrev pub get_rate : F → Assoc F → String → F
  get_rate one m name = rate_or one (lookup name m)
