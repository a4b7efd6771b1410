-- ===== src/Sd/EndpointCache/Closing.antt =====
-- When sd/endpoint_cache.go closes what it opened, and when it forgets to.
use yoroi.Prelude.{
  ℕ, ◌+◌, ◌≤◌, String, ◌≡◌, refl, ap, none, some, List, [], ◌∷◌, arith, eq_iff, Assoc, lookup,
  insert, remove, sort, lookup-remove,
}
use yoroi.Sd.Event.{Error}
use yoroi.Sd.EndpointCache.{
  EndpointCloser, EndpointerOptions, made, Effect, called, Factory, EndpointCache, Step,
  new_endpoint_cache, take_instance, close_all, produce, update_cache, update, endpoints_exclusive,
  run,
}
use yoroi.Sd.EndpointCache.Balance.{
  AllClean, one, live, opens, closes, run-IsBalanced, IsBalanced-new, opens-close_all,
  closes-close_all, update_cache-IsBalanced, live-remove,
}

module _ {ℓ} {P : Type ℓ} (factory : Factory P) where
  update_cache_nothing : (s : EndpointCache P) → (update_cache factory s []).cache ≡ []
  unfolding update_cache produce sort
  update_cache_nothing s = refl

  -- Once `Endpoints` is called at or after the deadline of a failure, every closer has been closed
  -- as often as the factory had returned it, and none is held, if no event named an instance
  -- twice.
  pub all_closed_after_deadline :
      (options : EndpointerOptions) (xs : List Step) (now c : ℕ) (e : Error)
      → AllClean xs
      → (run factory (new_endpoint_cache options) xs).err ≡ some e
      → (run factory (new_endpoint_cache options) xs).invalidate_deadline ≤ now
      → let s = (endpoints_exclusive factory now (run factory (new_endpoint_cache options) xs)).0 in
        (opens c s.trace ≡ closes c s.trace) × (live c s.cache ≡ 0)
  unfolding endpoints_exclusive
  all_closed_after_deadline options xs now c e d failing late =
      let s = run factory (new_endpoint_cache options) xs in
      let b = run-IsBalanced factory c _ xs d (IsBalanced-new factory c options) in
      let u = update_cache-IsBalanced factory c s [] tt b in
      ground (arith, failing, late, u.balance, ap (live c) (update_cache_nothing s))

  sort_twice : (i : String) → sort (i ∷ i ∷ []) ≡ i ∷ i ∷ []
  unfolding sort
  sort_twice i = ground arith

  insert_again :
      (i : String) (sc sc' : EndpointCloser P) → insert i sc' (insert i sc []) ≡ (i, sc') ∷ []
  unfolding insert
  insert_again i sc sc' = rw ((eq_iff i i).1 refl)

  produce_twice :
      (m : Assoc (EndpointCloser P)) (t : List (Effect P)) (i : String) (sc sc' : EndpointCloser P)
      → lookup i m ≡ some sc
      → factory t i ≡ made sc'
      → produce factory (record { old = m; new = []; trace = t }) (i ∷ i ∷ [])
        ≡ record { old = remove i m; new = (i, sc') ∷ []; trace = called i (made sc') ∷ t }
  unfolding produce take_instance
  produce_twice m t i sc sc' found answer =
      rw (found, lookup-remove i i m, (eq_iff i i).1 refl, answer, insert_again i sc sc')

  -- After any updates whose events name no instance twice and any invalidations: if an event names one
  -- instance of the cache, twice, and no other, and the factory makes an endpoint for it, then the
  -- factory is called for it all the same, the new endpoint takes its place, and the old closer is lost: it is
  -- neither closed nor held afterwards.
  pub duplicate_leaks :
      (options : EndpointerOptions) (xs : List Step) (i : String) (sc sc' : EndpointCloser P)
      (c now : ℕ)
      → AllClean xs
      → let s = run factory (new_endpoint_cache options) xs in
        lookup i s.cache ≡ some sc
        → factory s.trace i ≡ made sc'
        → let u = update factory now s (record { instances = some (i ∷ i ∷ []); err = none }) in
          (opens c u.trace ≡ closes c u.trace + live c u.cache + one c sc)
          × (u.cache ≡ (i, sc') ∷ [])
          × (u.trace ≡ close_all (remove i s.cache) (called i (made sc') ∷ s.trace))
  unfolding update update_cache
  duplicate_leaks options xs i sc sc' c now d found answer =
      let s = run factory (new_endpoint_cache options) xs in
      let b = run-IsBalanced factory c _ xs d (IsBalanced-new factory c options) in
      rw (sort_twice i, produce_twice s.cache s.trace i sc sc' found answer)
        (
          omega (
            arith,
            opens-close_all c (remove i s.cache) (called i (made sc') ∷ s.trace),
            closes-close_all c (remove i s.cache) (called i (made sc') ∷ s.trace),
            live-remove c i sc s.cache b.cache_map found,
            b.balance,
          ),
          refl,
          refl,
        )
