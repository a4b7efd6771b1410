-- ===== src/Sd/Consul.antt =====
-- sd/consul/instancer.go. `service k` is the answer to the k-th call of Client.Service, `interrupted k`
-- says that the k-th select finds the closed channel `quitc`, and `product k` draws the k-th random
-- factor. The cache is known by the events that it is updated with; ports are printed by `text`.
pub mod Published
pub mod Progress
mod Tests
use Prim.Native.String.{◌++◌ as join}
use yoroi.Prelude.{
  ℕ, zero, suc, String, Option, none, some, List, [], ◌∷◌, Bool, true, false, ◌&&◌, ◌||◌, ◌==◌, ltb,
  str_eq, if◌then◌else◌,
}
use yoroi.Sd.Event.{Error, Event}
use yoroi.Conn.Backoff.{exponential}

-- consul.ServiceEntry
pub record Entry (P : Type 0) : Type 0 where
  pub tags : List String
  pub node_address : String
  pub service_address : String
  pub port : P

-- What Client.Service returns: an error, or entries and the last index.
pub data Answer (P : Type 0) : Type 0 where
  failed : Error → Answer P
  answered : List (Entry P) → ℕ → Answer P

-- What getInstances returns; `stopped` is errStopped.
pub data Fetched : Type 0 where
  stopped : Fetched
  refused : Error → Fetched
  fetched : List String → ℕ → Fetched

-- The lookup in `ts`.
abbrev pub has_tag : String → List String → Bool
has_tag tag [] = false
has_tag tag (t ∷ ts) = str_eq t tag || has_tag tag ts

module _ {P : Type 0} where
  -- The loop over `tags`.
  abbrev pub has_tags : List String → Entry P → Bool
  has_tags [] entry = true
  has_tags (tag ∷ tags) entry = has_tag tag entry.tags && has_tags tags entry

  unfoldable pub filter_entries : List (Entry P) → List String → List (Entry P)
  filter_entries [] tags = []
  filter_entries (entry ∷ entries) tags =
      let es = filter_entries entries tags in if has_tags tags entry then entry ∷ es else es

  abbrev pub address : (P → String) → Entry P → String
  address text entry =
      join (if str_eq entry.service_address "" then entry.node_address else entry.service_address)
        (join ":" (text entry.port))

  unfoldable pub make_instances : (P → String) → List (Entry P) → List String
  make_instances text [] = []
  make_instances text (entry ∷ entries) = address text entry ∷ make_instances text entries

abbrev pub first_tag : List String → String
first_tag [] = ""
first_tag (tag ∷ tags) = tag

module _ {P : Type 0} (text : P → String) where
  -- The goroutine of getInstances.
  unfoldable pub fetch : List String → Answer P → Fetched
  fetch tags (failed err) = refused err
  fetch [] (answered entries index) = fetched (make_instances text entries) index
  fetch (tag ∷ []) (answered entries index) = fetched (make_instances text entries) index
  fetch (tag ∷ tag' ∷ tags) (answered entries index) =
      fetched (make_instances text (filter_entries entries (tag' ∷ tags))) index

-- The variables of the loop, with the events for the cache, the last one first.
pub record Loop : Type 0 where
  pub last_index : ℕ
  pub d : ℕ
  pub updates : List Event
  pub returned : Bool
  pub calls : ℕ

abbrev pub first_wait : ℕ
first_wait = 10_000_000

abbrev pub good : List String → Event
good instances = record { instances = some instances; err = none }

abbrev pub bad : Error → Event
bad err = record { instances = none; err = some err }

module _ (product : ℕ → ℕ → ℕ) where
  abbrev pub backed_off : Loop → Loop
  backed_off s = record s { d = exponential product s.calls s.d }

  -- The switch of the loop.
  unfoldable pub handle : Loop → Fetched → Loop
  handle s stopped = record s { returned = true }
  handle s (refused err) = backed_off (record s { updates = bad err ∷ s.updates })
  handle s (fetched instances index) =
      if index == 0
      then backed_off s
      else if ltb index s.last_index
      then backed_off (record s { last_index = 0 })
      else record s { last_index = index; updates = good instances ∷ s.updates; d = first_wait }

abbrev pub counted : Loop → Loop
counted s = record s { calls = suc s.calls }

module _ {P : Type 0} (text : P → String) (service : ℕ → String → ℕ → Answer P)
    (interrupted : ℕ → Bool) where
  -- getInstances
  unfoldable pub get_instances : List String → ℕ → ℕ → Fetched
  unfolding fetch
  get_instances tags k last_index =
      if interrupted k then stopped else fetch text tags (service k (first_tag tags) last_index)

  -- One round of the loop, and some rounds.
  unfoldable pub round : (ℕ → ℕ → ℕ) → List String → Loop → Loop
  unfolding get_instances handle
  round product tags s =
      if s.returned then s else counted (handle product s (get_instances tags s.calls s.last_index))

  unfoldable pub rounds : (ℕ → ℕ → ℕ) → List String → ℕ → Loop → Loop
  rounds product tags zero s = s
  rounds product tags (suc n) s = rounds product tags n (round product tags s)

abbrev pub started : Fetched → Loop
started stopped = record {
  last_index = 0;
  d = first_wait;
  updates = [];
  returned = false;
  calls = 1;
}
started (refused err) = record {
  last_index = 0;
  d = first_wait;
  updates = bad err ∷ [];
  returned = false;
  calls = 1;
}
started (fetched instances index) = record {
  last_index = index;
  d = first_wait;
  updates = good instances ∷ [];
  returned = false;
  calls = 1;
}

module _ {P : Type 0} (text : P → String) (service : ℕ → String → ℕ → Answer P) where
  -- NewInstancer: its call of getInstances cannot be interrupted.
  unfoldable pub new_instancer : List String → Loop
  unfolding fetch
  new_instancer tags = started (fetch text tags (service 0 (first_tag tags) 0))
