-- ===== src/Sd/Consul/Published.antt =====
-- The events that the loop of sd/consul/instancer.go gives to its cache.
use yoroi.Prelude.{ℕ, ◌≡◌, ◌⊎◌, String, List, [], ◌∷◌}
use yoroi.Sd.Event.{Error, Event}
use yoroi.Sd.Consul.{
  Entry, Answer, answered, Fetched, stopped, refused, fetched, address, good, bad,
}

-- A tag is one of some tags.
abbrev pub IsIn : String → List String → Type 0
IsIn tag [] = ⊥
IsIn tag (t ∷ ts) = (t ≡ tag) ⊎ IsIn tag ts

abbrev pub IsAllIn : List String → List String → Type 0
IsAllIn [] ts = Unit
IsAllIn (tag ∷ tags) ts = IsIn tag ts × IsAllIn tags ts

module _ {P : Type 0} (text : P → String) where
  -- The addresses of those entries that have all tags, in their order.
  abbrev pub IsKept : List String → List (Entry P) → List String → Type 0
  IsKept tags [] kept = kept ≡ []
  IsKept tags (entry ∷ entries) kept =
      (IsAllIn tags entry.tags
        × ((rest : List String) × (kept ≡ address text entry ∷ rest) × IsKept tags entries rest))
      ⊎ (¬ (IsAllIn tags entry.tags) × IsKept tags entries kept)

module _ {P : Type 0} where
  abbrev pub IsTagged : String → List (Entry P) → Type 0
  IsTagged t [] = Unit
  IsTagged t (entry ∷ entries) = IsIn t entry.tags × IsTagged t entries

module _ {P : Type 0} (text : P → String) where
  module _ (service : ℕ → String → ℕ → Answer P) (t : String) (ts : List String) where
    -- An event tells an error of the client, or the instances of one of its answers with all tags.
    pub data IsPublished (event : Event) : Type 0 where
      from_error : (err : Error) → event ≡ bad err → IsPublished event
      from_answer :
          (k wait index : ℕ) (entries : List (Entry P)) (kept : List String)
          → service k t wait ≡ answered entries index
          → IsKept text (t ∷ ts) entries kept
          → event ≡ good kept
          → IsPublished event

    abbrev pub IsAllPublished : List Event → Type 0
    IsAllPublished [] = Unit
    IsAllPublished (event ∷ events) = IsPublished event × IsAllPublished events

    -- What getInstances returns can be published.
    abbrev IsFetched : Fetched → Type 0
    IsFetched stopped = Unit
    IsFetched (refused err) = Unit
    IsFetched (fetched instances index) = IsPublished (good instances)
