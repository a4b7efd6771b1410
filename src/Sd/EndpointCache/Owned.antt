-- ===== src/Sd/EndpointCache/Owned.antt =====
-- Which calls of the factory the entries of sd/endpoint_cache.go come from.
use yoroi.Prelude.{
  ℕ, String, ◌≡◌, refl, sym, ap, subst, ◌∙◌, inl, inr, Option, none, some, List, [], ◌∷◌, Bool,
  true, false, arith, eq_iff, str_eq, lookup, lookup-insert, lookup-remove, insert, remove, member,
  Distinct, sort, Bool-cases, Assoc, if◌then◌else◌,
}
use yoroi.Sd.Event.{Error, items}
use yoroi.Sd.EndpointCache.{
  EndpointCloser, Made, made, failed, Effect, Factory, EndpointCache, Pass, create, keep_or_create,
  take_instance, produce, update_cache, fail, update, is_usable, endpoints_exclusive,
}
use yoroi.Sd.EndpointCache.Contents.{outcome, Settled, Follows, cache-update_cache}

module _ {ℓ} {P : Type ℓ} (factory : Factory P) where
  -- What a call of the factory for the instance gave.
  abbrev pub IsMade : String → Option (EndpointCloser P) → Type ℓ
  IsMade i r = (t : List (Effect P)) × (r ≡ outcome (factory t i))

  -- Where the instances are named, what a call of the factory for each of them gave; and no entry else.
  abbrev pub IsEntry : String → Bool → Option (EndpointCloser P) → Type ℓ
  IsEntry i true r = IsMade i r
  IsEntry i false r = r ≡ none

  -- The endpoints are for exactly these instances, and there is no error.
  abbrev pub IsFor : List String → EndpointCache P → Type ℓ
  IsFor is c = (c.err ≡ none) × ((i : String) → IsEntry i (member i is) (lookup i c.cache))

  -- Each entry is one that the factory made for its instance.
  abbrev pub IsOwn : Assoc (EndpointCloser P) → Type ℓ
  IsOwn m = (i : String) (sc : EndpointCloser P) → lookup i m ≡ some sc → IsMade i (some sc)

  insert-IsOwn :
      (m : Assoc (EndpointCloser P)) (i : String) (sc : EndpointCloser P)
      → IsMade i (some sc)
      → IsOwn m
      → IsOwn (insert i sc m)
  insert-IsOwn m i sc h own j sc' e = elim (Bool-cases (str_eq i j)) [
    | inl hit ↦
        let e' : some sc ≡ some sc' =
          ap (λ b. if b then some sc else lookup j m) (sym hit)
          ∙ sym (lookup-insert i j sc m)
          ∙ e in
        subst (λ k. IsMade k (some sc')) ((eq_iff i j).0 hit) (subst (IsMade i) e' h)
    | inr miss ↦
        own j sc' (
          ap (λ b. if b then some sc else lookup j m) (sym miss) ∙ sym (lookup-insert i j sc m) ∙ e)
  ]

  remove-IsOwn : (m : Assoc (EndpointCloser P)) (i : String) → IsOwn m → IsOwn (remove i m)
  remove-IsOwn m i own j sc e = elim (Bool-cases (str_eq i j)) [
    | inl hit ↦
        absurd
          (cc (ap (λ b. if b then none else lookup j m) (sym hit) ∙ sym (lookup-remove i j m) ∙ e))
    | inr miss ↦
        own j sc
          (ap (λ b. if b then none else lookup j m) (sym miss) ∙ sym (lookup-remove i j m) ∙ e)
  ]

  record IsOwnPass (p : Pass P) : Type ℓ where
    old : IsOwn p.old
    new : IsOwn p.new

  create-IsOwnPass :
      (p : Pass P) (i : String) (m : Made P)
      → factory p.trace i ≡ m
      → IsOwnPass p
      → IsOwnPass (create p i m)
  create-IsOwnPass p i (made sc) e h = record {
    old = h.old;
    new = insert-IsOwn p.new i sc (p.trace, sym (ap outcome e)) h.new;
  }
  create-IsOwnPass p i (failed x) e h = record { old = h.old; new = h.new }

  keep_or_create-IsOwnPass :
      (p : Pass P) (i : String) (o : Option (EndpointCloser P))
      → lookup i p.old ≡ o
      → IsOwnPass p
      → IsOwnPass (keep_or_create factory p i o)
  keep_or_create-IsOwnPass p i none e h = create-IsOwnPass p i (factory p.trace i) refl h
  keep_or_create-IsOwnPass p i (some sc) e h = record {
    old = remove-IsOwn p.old i h.old;
    new = insert-IsOwn p.new i sc (h.old i sc e) h.new;
  }

  produce-IsOwnPass :
      (is : List String) (p : Pass P) → IsOwnPass p → IsOwnPass (produce factory p is)
  unfolding produce take_instance
  produce-IsOwnPass [] p h = h
  produce-IsOwnPass (i ∷ is) p h =
      produce-IsOwnPass is (keep_or_create factory p i (lookup i p.old))
        (keep_or_create-IsOwnPass p i (lookup i p.old) refl h)

  pub empty-IsOwn : IsOwn []
  unfolding lookup
  empty-IsOwn i sc e = absurd (cc e)

  update_cache-IsOwn :
      (c : EndpointCache P) (is : List String)
      → IsOwn c.cache
      → IsOwn (update_cache factory c is).cache
  unfolding update_cache
  update_cache-IsOwn c is h =
      (produce-IsOwnPass (sort is) (record { old = c.cache; new = []; trace = c.trace })
        (record { old = h; new = empty-IsOwn })).new

  fail_cache : (c : EndpointCache P) (now : ℕ) (e : Error) → (fail c now e).cache ≡ c.cache
  fail_cache c now e = ground arith

  pub update-IsOwn :
      (now : ℕ) (c : EndpointCache P) (is : Option (List String)) (e : Option Error)
      → IsOwn c.cache
      → IsOwn (update factory now c (record { instances = is; err = e })).cache
  unfolding update
  update-IsOwn now c is none h = update_cache-IsOwn c (items is) h
  update-IsOwn now c is (some e) h = subst IsOwn (sym (fail_cache c now e)) h

  settled-IsMade :
      (i : String) (old r : Option (EndpointCloser P))
      → ((sc : EndpointCloser P) → old ≡ some sc → IsMade i (some sc))
      → Settled factory i old r
      → IsMade i r
  settled-IsMade i none r own h = h
  settled-IsMade i (some sc) r own h = subst (IsMade i) (sym h) (own sc refl)

  Follows-IsEntry :
      (i : String) (named : Bool) (old r : Option (EndpointCloser P))
      → ((sc : EndpointCloser P) → old ≡ some sc → IsMade i (some sc))
      → Follows factory i named old r
      → IsEntry i named r
  Follows-IsEntry i true old r own h = settled-IsMade i old r own h
  Follows-IsEntry i false old r own h = h

  pub update-IsFor :
      (now : ℕ) (c : EndpointCache P) (is : Option (List String)) (e : Option Error)
      → e ≡ none
      → Distinct (items is)
      → IsOwn c.cache
      → IsFor (items is) (update factory now c (record { instances = is; err = e }))
  unfolding update
  update-IsFor now c is none none_wrong d own = (
    refl,
    λ i.
        Follows-IsEntry i (member i (items is)) (lookup i c.cache) _ (own i)
          (cache-update_cache factory c (items is) d i),
  )
  update-IsFor now c is (some e) wrong d own = absurd (cc wrong)

  -- endpoints_exclusive, by the answer of its test.
  abbrev by_test : EndpointCache P → Bool → EndpointCache P × (List P × Option Error)
  by_test c usable =
      if usable then (c, (c.endpoints, none)) else (update_cache factory c [], ([], c.err))

  pub endpoints-IsOwn :
      (now : ℕ) (c : EndpointCache P)
      → IsOwn c.cache
      → IsOwn (endpoints_exclusive factory now c).0.cache
  unfolding endpoints_exclusive
  endpoints-IsOwn now c h = elim (Bool-cases (is_usable now c)) [
    | inl e ↦ subst (λ b. IsOwn (by_test c b).0.cache) (sym e) h
    | inr e ↦ subst (λ b. IsOwn (by_test c b).0.cache) (sym e) (update_cache-IsOwn c [] h)
  ]

  -- Without an error Endpoints changes nothing.
  pub endpoints_same :
      (now : ℕ) (c : EndpointCache P) → c.err ≡ none → (endpoints_exclusive factory now c).0 ≡ c
  unfolding endpoints_exclusive
  endpoints_same now c e =
      let usable : is_usable now c ≡ true = ground (arith, e) in ap (λ b. (by_test c b).0) usable
