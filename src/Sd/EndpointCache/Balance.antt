-- ===== src/Sd/EndpointCache/Balance.antt =====
-- Closers of sd/endpoint_cache.go: what the factory opened is closed or held by the cache.
use yoroi.Prelude.{
  ℕ, ◌+◌, String, ◌≡◌, refl, inl, inr, Option, none, some, List, [], ◌∷◌, arith, eq_iff, ◌==◌,
  if◌then◌else◌, Assoc, false, lookup, insert, remove, IsMap, lookup-insert, insert-IsMap,
  remove-IsMap, remove_absent, member, Distinct, sort, sort-Distinct, Option-cases,
}
use yoroi.Sd.Event.{Event, Error, items}
use yoroi.Sd.EndpointCache.{
  EndpointCloser, EndpointerOptions, Made, made, failed, Effect, called, closed, Factory,
  EndpointCache, Pass, Step, updates, invalidates, new_endpoint_cache, create, keep_or_create,
  take_instance, produce, close, close_all, update_cache, update, endpoints_exclusive, step, run,
  fail,
}

module _ {ℓ} {P : Type ℓ} where
  -- 1 if the closer has the handle `c`, and 0 otherwise
  abbrev pub one : ℕ → EndpointCloser P → ℕ
  one c sc = elim sc.closer [ none ↦ 0 | some d ↦ if d == c then 1 else 0 ]

  -- how often the cache holds `c`
  abbrev pub live : ℕ → Assoc (EndpointCloser P) → ℕ
  live c [] = 0
  live c ((i, sc) ∷ m) = one c sc + live c m

  abbrev pub opened : ℕ → Effect P → ℕ
  opened c (called i (made sc)) = one c sc
  opened c (called i (failed e)) = 0
  opened c (closed d) = 0

  abbrev pub shut : ℕ → Effect P → ℕ
  shut c (called i m) = 0
  shut c (closed d) = if d == c then 1 else 0

  -- how often the factory returned `c`
  abbrev pub opens : ℕ → List (Effect P) → ℕ
  opens c [] = 0
  opens c (e ∷ es) = opened c e + opens c es

  -- how often `Close` was called on `c`
  abbrev pub closes : ℕ → List (Effect P) → ℕ
  closes c [] = 0
  closes c (e ∷ es) = shut c e + closes c es

  live-insert :
      (c : ℕ) (i : String) (sc : EndpointCloser P) (m : Assoc (EndpointCloser P))
      → lookup i m ≡ none
      → live c (insert i sc m) ≡ live c m + one c sc
  unfolding insert lookup
  live-insert c i sc [] h = omega arith
  live-insert c i sc ((j, w) ∷ m) h = ground (arith, live-insert c i sc m)

  pub live-remove :
      (c : ℕ) (i : String) (sc : EndpointCloser P) (m : Assoc (EndpointCloser P))
      → IsMap m
      → lookup i m ≡ some sc
      → live c (remove i m) + one c sc ≡ live c m
  unfolding remove lookup
  live-remove c i sc [] w h = ground arith
  live-remove c i sc ((j, x) ∷ m) w h =
      ground (arith, eq_iff j i, live-remove c i sc m w.1, remove_absent i m)

  pub closes-close_all :
      (c : ℕ) (m : Assoc (EndpointCloser P)) (t : List (Effect P))
      → closes c (close_all m t) ≡ closes c t + live c m
  unfolding close_all
  closes-close_all c [] t = omega arith
  closes-close_all c ((i, sc) ∷ m) t = ground (arith, closes-close_all c m (close sc t))

  pub opens-close_all :
      (c : ℕ) (m : Assoc (EndpointCloser P)) (t : List (Effect P))
      → opens c (close_all m t) ≡ opens c t
  unfolding close_all
  opens-close_all c [] t = refl
  opens-close_all c ((i, sc) ∷ m) t = ground (arith, opens-close_all c m (close sc t))

  -- None of the instances has an entry yet.
  abbrev Fresh : Assoc (EndpointCloser P) → List String → Type ℓ
  Fresh m [] = Unit
  Fresh m (i ∷ is) = (lookup i m ≡ none) × Fresh m is

  Fresh-insert :
      (i : String) (sc : EndpointCloser P) (m : Assoc (EndpointCloser P)) (is : List String)
      → member i is ≡ false
      → Fresh m is
      → Fresh (insert i sc m) is
  unfolding member
  Fresh-insert i sc m [] h f = tt
  Fresh-insert i sc m (j ∷ is) h f =
      ground (arith, eq_iff i j, eq_iff j i, lookup-insert i j sc m, Fresh-insert i sc m is)

  record PassInv (c : ℕ) (p : Pass P) : Type ℓ where
    old_map : IsMap p.old
    new_map : IsMap p.new
    balance : opens c p.trace ≡ closes c p.trace + live c p.old + live c p.new

  create-PassInv :
      (c : ℕ) (p : Pass P) (i : String) (m : Made P)
      → lookup i p.new ≡ none
      → PassInv c p
      → PassInv c (create p i m)
  create-PassInv c p i (made sc) f v = record {
    old_map = v.old_map;
    new_map = insert-IsMap i sc p.new v.new_map;
    balance = omega (arith, live-insert c i sc p.new f, v.balance);
  }
  create-PassInv c p i (failed e) f v = record {
    old_map = v.old_map;
    new_map = v.new_map;
    balance = omega (arith, v.balance);
  }

  keep_or_create-PassInv :
      (factory : Factory P) (c : ℕ) (p : Pass P) (i : String) (o : Option (EndpointCloser P))
      → lookup i p.old ≡ o
      → lookup i p.new ≡ none
      → PassInv c p
      → PassInv c (keep_or_create factory p i o)
  keep_or_create-PassInv factory c p i none e f v = create-PassInv c p i (factory p.trace i) f v
  keep_or_create-PassInv factory c p i (some sc) e f v = record {
    old_map = remove-IsMap i p.old v.old_map;
    new_map = insert-IsMap i sc p.new v.new_map;
    balance =
        omega (arith, live-insert c i sc p.new f, live-remove c i sc p.old v.old_map e, v.balance);
  }

  create-Fresh :
      (p : Pass P) (i : String) (m : Made P) (is : List String)
      → member i is ≡ false
      → Fresh p.new is
      → Fresh (create p i m).new is
  create-Fresh p i (made sc) is h f = Fresh-insert i sc p.new is h f
  create-Fresh p i (failed e) is h f = f

  keep_or_create-Fresh :
      (factory : Factory P) (p : Pass P) (i : String) (o : Option (EndpointCloser P))
      (is : List String)
      → member i is ≡ false
      → Fresh p.new is
      → Fresh (keep_or_create factory p i o).new is
  keep_or_create-Fresh factory p i none is h f = create-Fresh p i (factory p.trace i) is h f
  keep_or_create-Fresh factory p i (some sc) is h f = Fresh-insert i sc p.new is h f

  produce-PassInv :
      (factory : Factory P) (c : ℕ) (p : Pass P) (is : List String)
      → Distinct is
      → Fresh p.new is
      → PassInv c p
      → PassInv c (produce factory p is)
  unfolding produce take_instance
  produce-PassInv factory c p [] d f v = v
  produce-PassInv factory c p (i ∷ is) d f v =
      produce-PassInv factory c (keep_or_create factory p i (lookup i p.old)) is d.1
        (keep_or_create-Fresh factory p i (lookup i p.old) is d.0 f.1)
        (keep_or_create-PassInv factory c p i (lookup i p.old) refl f.0 v)

  Fresh-all :
      (m : Assoc (EndpointCloser P))
      → ((i : String) → lookup i m ≡ none)
      → (is : List String) → Fresh m is
  Fresh-all m h [] = tt
  Fresh-all m h (i ∷ is) = (h i, Fresh-all m h is)

  -- Every closer is accounted for.
  pub record IsBalanced (c : ℕ) (s : EndpointCache P) : Type ℓ where
    pub cache_map : IsMap s.cache
    pub balance : opens c s.trace ≡ closes c s.trace + live c s.cache

  fail-IsBalanced :
      (c now : ℕ) (s : EndpointCache P) (e : Error) → IsBalanced c s → IsBalanced c (fail s now e)
  fail-IsBalanced c now s e v = record {
    cache_map = ground (arith, v.cache_map);
    balance = ground (arith, v.balance);
  }

  pub update_cache-IsBalanced :
      (factory : Factory P) (c : ℕ) (s : EndpointCache P) (is : List String)
      → Distinct is
      → IsBalanced c s
      → IsBalanced c (update_cache factory s is)
  unfolding update_cache lookup
  update_cache-IsBalanced factory c s is d v = record {
    cache_map = done.new_map;
    balance = omega (
      arith,
      done.balance,
      closes-close_all c pass.old pass.trace,
      opens-close_all c pass.old pass.trace,
    );
  }
    where
      pass : Pass P
      pass = produce factory (record { old = s.cache; new = []; trace = s.trace }) (sort is)

      done : PassInv c pass
      done =
          produce-PassInv factory c _ (sort is) (sort-Distinct is d)
            (Fresh-all [] (λ i. refl) (sort is))
            (record { old_map = v.cache_map; new_map = tt; balance = omega (arith, v.balance) })

abbrev pub IsClean : Step → Type 0
IsClean (updates now event) = Distinct (items event.instances)
IsClean (invalidates now) = Unit

abbrev pub AllClean : List Step → Type 0
AllClean [] = Unit
AllClean (s ∷ ss) = IsClean s × AllClean ss

module _ {ℓ} {P : Type ℓ} (factory : Factory P) (c : ℕ) where
  update-IsBalanced :
      (now : ℕ) (s : EndpointCache P) (event : Event)
      → Distinct (items event.instances)
      → IsBalanced c s
      → IsBalanced c (update factory now s event)
  unfolding update
  update-IsBalanced now s event d v = elim (Option-cases event.err) [
    | inl e ↦
        let done = update_cache-IsBalanced factory c s (items event.instances) d v in
        rw e (record { cache_map = done.cache_map; balance = done.balance })
    | inr (x, e) ↦ rw e (fail-IsBalanced c now s x v)
  ]

  step-IsBalanced :
      (s : EndpointCache P) (x : Step)
      → IsClean x
      → IsBalanced c s
      → IsBalanced c (step factory s x)
  unfolding step update endpoints_exclusive
  step-IsBalanced s (updates now event) d v = update-IsBalanced now s event d v
  step-IsBalanced s (invalidates now) d v =
      ground (arith, update_cache-IsBalanced factory c s [] tt v)

  pub run-IsBalanced :
      (s : EndpointCache P) (xs : List Step)
      → AllClean xs
      → IsBalanced c s
      → IsBalanced c (run factory s xs)
  unfolding run
  run-IsBalanced s [] d v = v
  run-IsBalanced s (x ∷ xs) d v =
      run-IsBalanced (step factory s x) xs d.1 (step-IsBalanced s x d.0 v)

  pub IsBalanced-new :
      (options : EndpointerOptions) → IsBalanced c (new_endpoint_cache {P = P} options)
  unfolding new_endpoint_cache
  IsBalanced-new options = record { cache_map = tt; balance = omega arith }

  -- If no event names an instance twice, then after any updates and invalidations a closer was
  -- closed as often as the factory had returned it, less the entries of the cache that hold it.
  pub closers_accounted :
      (options : EndpointerOptions) (xs : List Step)
      → AllClean xs
      → let s = run factory (new_endpoint_cache options) xs in
        opens c s.trace ≡ closes c s.trace + live c s.cache
  closers_accounted options xs d = (run-IsBalanced _ xs d (IsBalanced-new options)).balance
