-- ===== src/Sd/EndpointCache/Contents.antt =====
-- What sd/endpoint_cache.go's `updateCache` leaves in the map, instance by instance.
use yoroi.Prelude.{
  String, ◌≡◌, refl, subst, ◌∙◌, inl, inr, Option, none, some, List, [], ◌∷◌, Bool, true, false,
  arith, eq_iff, str_eq, lookup, lookup-insert, lookup-remove, member, Distinct, sort,
  sort-Distinct, member-sort, Bool-cases,
}
use yoroi.Sd.EndpointCache.{
  EndpointCloser, Made, made, failed, Effect, Factory, EndpointCache, Pass, create, keep_or_create,
  take_instance, produce, update_cache,
}

module _ {ℓ} {P : Type ℓ} where
  abbrev pub outcome : Made P → Option (EndpointCloser P)
  outcome (made sc) = some sc
  outcome (failed e) = none

  -- `r` is the old entry if there was one, and else an answer of the factory for the instance.
  abbrev pub Settled :
      Factory P → String → Option (EndpointCloser P) → Option (EndpointCloser P) → Type ℓ
  Settled factory i (some sc) r = r ≡ some sc
  Settled factory i none r = (t : List (Effect P)) × (r ≡ outcome (factory t i))

  -- The entry for an instance, by whether the event names it.
  abbrev pub Follows :
      Factory P → String → Bool → Option (EndpointCloser P) → Option (EndpointCloser P) → Type ℓ
  Follows factory i true old r = Settled factory i old r
  Follows factory i false old r = r ≡ none

  create_other :
      (p : Pass P) (i j : String) (m : Made P)
      → str_eq i j ≡ false
      → (lookup j (create p i m).new ≡ lookup j p.new)
        × (lookup j (create p i m).old ≡ lookup j p.old)
  create_other p i j (made sc) h = (rw (lookup-insert i j sc p.new, h), refl)
  create_other p i j (failed e) h = (refl, refl)

  keep_or_create_other :
      (factory : Factory P) (p : Pass P) (i j : String) (o : Option (EndpointCloser P))
      → str_eq i j ≡ false
      → (lookup j (keep_or_create factory p i o).new ≡ lookup j p.new)
        × (lookup j (keep_or_create factory p i o).old ≡ lookup j p.old)
  keep_or_create_other factory p i j none h = create_other p i j (factory p.trace i) h
  keep_or_create_other factory p i j (some sc) h =
      (rw (lookup-insert i j sc p.new, h), rw (lookup-remove i j p.old, h))

  -- An instance that does not come up keeps its entry, or stays without one.
  produce_other :
      (factory : Factory P) (p : Pass P) (is : List String) (j : String)
      → member j is ≡ false
      → (lookup j (produce factory p is).new ≡ lookup j p.new)
        × (lookup j (produce factory p is).old ≡ lookup j p.old)
  unfolding produce take_instance member
  produce_other factory p [] j h = (refl, refl)
  produce_other factory p (i ∷ is) j h =
      let q = keep_or_create factory p i (lookup i p.old) in
      let rest = produce_other factory q is j (ground arith) in
      let here = keep_or_create_other factory p i j (lookup i p.old) (ground arith) in
      (rest.0 ∙ here.0, rest.1 ∙ here.1)

  create-outcome :
      (p : Pass P) (i : String) (m : Made P)
      → lookup i p.new ≡ none
      → lookup i (create p i m).new ≡ outcome m
  create-outcome p i (made sc) h = ground (arith, lookup-insert i i sc p.new, eq_iff i i)
  create-outcome p i (failed e) h = h

  keep_or_create-Settled :
      (factory : Factory P) (p : Pass P) (i : String) (o : Option (EndpointCloser P))
      → lookup i p.new ≡ none
      → Settled factory i o (lookup i (keep_or_create factory p i o).new)
  keep_or_create-Settled factory p i none h = (p.trace, create-outcome p i (factory p.trace i) h)
  keep_or_create-Settled factory p i (some sc) h =
      ground (arith, lookup-insert i i sc p.new, eq_iff i i)

  produce-Settled :
      (factory : Factory P) (p : Pass P) (is : List String) (j : String)
      → Distinct is
      → member j is ≡ true
      → lookup j p.new ≡ none
      → Settled factory j (lookup j p.old) (lookup j (produce factory p is).new)
  unfolding produce take_instance member
  produce-Settled factory p [] j d h f = cc
  produce-Settled factory p (i ∷ is) j d h f =
      let q = keep_or_create factory p i (lookup i p.old) in
      elim (Bool-cases (str_eq i j)) [
        | inl hit ↦
            subst (λ k. Settled factory k (lookup k p.old) (lookup k (produce factory q is).new))
              ((eq_iff i j).0 hit)
              (rw (produce_other factory q is i d.0).0
                (keep_or_create-Settled factory p i (lookup i p.old) (rw ((eq_iff i j).0 hit) f)))
        | inr miss ↦
            let here = keep_or_create_other factory p i j (lookup i p.old) miss in
            rw here.1 at (produce-Settled factory q is j d.1 (ground arith) (here.0 ∙ f))
      ]

  module _ (factory : Factory P) (c : EndpointCache P) (instances : List String) where
    -- If the event names no instance twice, then after `updateCache` an instance that it names has
    -- its old endpoint and closer if it had them, and else what some call of the factory for
    -- it returned, nothing if that failed; an instance that it does not name has no entry.
    pub cache-update_cache :
        Distinct instances
        → (i : String)
        → Follows factory i
            (member i instances)
            (lookup i c.cache)
            (lookup i (update_cache factory c instances).cache)
    unfolding update_cache lookup
    cache-update_cache d i = elim (Bool-cases (member i instances)) [
      | inl h ↦ rw h (
          produce-Settled factory _ (sort instances) i (sort-Distinct instances d)
            (member-sort i instances ∙ h) refl)
      | inr h ↦ rw h (produce_other factory _ (sort instances) i (member-sort i instances ∙ h)).0
    ]
