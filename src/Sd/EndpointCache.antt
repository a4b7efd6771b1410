-- ===== src/Sd/EndpointCache.antt =====
-- sd/endpoint_cache.go: `endpointCache`, with the factory and the clock as arguments. Calls of the
-- factory and of `Close` are recorded in a trace, the newest first; the factory may answer by
-- that history, so two calls for one instance can give two endpoints. Log lines are left out.
pub mod Balance
pub mod Contents
pub mod Errors
pub mod Closing
pub mod Owned
mod Tests
use yoroi.Prelude.{
  ℕ, ◌+◌, String, Option, none, some, List, [], ◌∷◌, Bool, true, false, ltb, not, ◌||◌,
  if◌then◌else◌, Assoc, lookup, insert, remove, sort,
}
use yoroi.Sd.Event.{Event, Error, items}

pub record EndpointerOptions : Type 0 where
  pub invalidate_on_error : Bool
  pub invalidate_timeout : ℕ

-- `P` stands for the endpoints. A closer is an object, known by its handle; it may be nil.
pub record EndpointCloser {ℓ} (P : Type ℓ) : Type ℓ where
  pub endpoint : P
  pub closer : Option ℕ

pub data Made {ℓ} (P : Type ℓ) : Type ℓ where
  made : EndpointCloser P → Made P
  failed : Error → Made P

pub data Effect {ℓ} (P : Type ℓ) : Type ℓ where
  called : String → Made P → Effect P
  closed : ℕ → Effect P

abbrev pub Factory {ℓ} : Type ℓ → Type ℓ
Factory P = List (Effect P) → String → Made P

pub record EndpointCache {ℓ} (P : Type ℓ) : Type ℓ where
  pub options : EndpointerOptions
  pub cache : Assoc (EndpointCloser P)
  pub err : Option Error
  pub endpoints : List P
  pub invalidate_deadline : ℕ
  pub trace : List (Effect P)

module _ {ℓ} {P : Type ℓ} where
  unfoldable pub new_endpoint_cache : EndpointerOptions → EndpointCache P
  new_endpoint_cache options = record {
    options = options;
    cache = [];
    err = none;
    endpoints = [];
    invalidate_deadline = 0;
    trace = [];
  }

-- The two maps of `updateCache` while it runs over the instances.
pub record Pass {ℓ} (P : Type ℓ) : Type ℓ where
  pub old : Assoc (EndpointCloser P)
  pub new : Assoc (EndpointCloser P)
  pub trace : List (Effect P)

module _ {ℓ} {P : Type ℓ} where
  abbrev pub create : Pass P → String → Made P → Pass P
  create p instance' (made sc) = record p {
    new = insert instance' sc p.new;
    trace = called instance' (made sc) ∷ p.trace;
  }
  create p instance' (failed e) = record p { trace = called instance' (failed e) ∷ p.trace }

  abbrev pub keep_or_create : Factory P → Pass P → String → Option (EndpointCloser P) → Pass P
  keep_or_create factory p i none = create p i (factory p.trace i)
  keep_or_create factory p i (some sc) = record p { new = insert i sc p.new; old = remove i p.old }

  -- The body of the first loop of `updateCache`.
  pub take_instance : Factory P → Pass P → String → Pass P
  take_instance factory p i = keep_or_create factory p i (lookup i p.old)

  pub produce : Factory P → Pass P → List String → Pass P
  produce factory p [] = p
  produce factory p (i ∷ is) = produce factory (take_instance factory p i) is

  abbrev pub close : EndpointCloser P → List (Effect P) → List (Effect P)
  close sc trace = elim sc.closer [ none ↦ trace | some c ↦ closed c ∷ trace ]

  pub close_all : Assoc (EndpointCloser P) → List (Effect P) → List (Effect P)
  close_all [] trace = trace
  close_all ((i, sc) ∷ rest) trace = close_all rest (close sc trace)

  abbrev pub add_present : Option (EndpointCloser P) → List P → List P
  add_present none rest = rest
  add_present (some sc) rest = sc.endpoint ∷ rest

  pub collect : Assoc (EndpointCloser P) → List String → List P
  collect cache [] = []
  collect cache (i ∷ is) = add_present (lookup i cache) (collect cache is)

  pub update_cache : Factory P → EndpointCache P → List String → EndpointCache P
  update_cache factory c instances =
      let sorted = sort instances in
      let pass = produce factory (record { old = c.cache; new = []; trace = c.trace }) sorted in
      record c {
        cache = pass.new;
        endpoints = collect pass.new sorted;
        trace = close_all pass.old pass.trace;
      }

  abbrev pub fail : EndpointCache P → ℕ → Error → EndpointCache P
  fail c now e = if not c.options.invalidate_on_error then c else elim c.err [
    | none ↦ record c { err = some e; invalidate_deadline = now + c.options.invalidate_timeout }
    | some _ ↦ c
  ]

  pub update : Factory P → ℕ → EndpointCache P → Event → EndpointCache P
  unfolding update_cache
  update factory now c event = elim event.err [
    | none ↦ record (update_cache factory c (items event.instances)) { err = none }
    | some e ↦ fail c now e
  ]

  -- The condition of both guards of `Endpoints`.
  abbrev pub is_usable : ℕ → EndpointCache P → Bool
  is_usable now c = elim c.err [ none ↦ true | some _ ↦ ltb now c.invalidate_deadline ]

  -- What `Endpoints` does under the shared lock; `none` means that it goes on below.
  pub endpoints_shared : ℕ → EndpointCache P → Option (List P × Option Error)
  endpoints_shared now c = if is_usable now c then some (c.endpoints, none) else none

  -- What it does under the exclusive lock, where other calls may have come in between.
  pub endpoints_exclusive :
      Factory P → ℕ → EndpointCache P → EndpointCache P × (List P × Option Error)
  unfolding update_cache
  endpoints_exclusive factory now c =
      if is_usable now c then (c, (c.endpoints, none)) else (update_cache factory c [], ([], c.err))

-- A caller's critical sections, in the order in which they get the lock. The reader under the
-- shared lock changes nothing, so it is no step.
pub data Step : Type 0 where
  updates : ℕ → Event → Step
  invalidates : ℕ → Step

module _ {ℓ} {P : Type ℓ} (factory : Factory P) where
  pub step : EndpointCache P → Step → EndpointCache P
  unfolding update endpoints_exclusive
  step c (updates now event) = update factory now c event
  step c (invalidates now) = (endpoints_exclusive factory now c).0

  pub run : EndpointCache P → List Step → EndpointCache P
  unfolding step
  run c [] = c
  run c (s ∷ ss) = run (step c s) ss
