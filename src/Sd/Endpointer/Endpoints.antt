-- ===== src/Sd/Endpointer/Endpoints.antt =====
-- Which endpoints a DefaultEndpointer of sd/endpointer.go has, by what its instancer holds.
use yoroi.Prelude.{
  ℕ, ◌-◌, ◌≡◌, ◌⊎◌, inl, inr, refl, sym, ap, subst, ◌∙◌, String, Option, none, some, List, [], ◌∷◌,
  ◌++◌, true, ==_iff, length, length-append, take, arith, Distinct, if_either,
}
use yoroi.Sd.Event.{Event, Error, items}
use yoroi.Sd.EndpointCache.{
  EndpointerOptions, Factory, EndpointCache, new_endpoint_cache, update, endpoints_exclusive,
}
use yoroi.Sd.EndpointCache.Owned.{
  IsFor, IsOwn, empty-IsOwn, update-IsOwn, update-IsFor, endpoints-IsOwn, endpoints_same,
}
use yoroi.Sd.InstanceCache as Instances
use yoroi.Sd.InstanceCache.{Heap, Sent, contents}
use yoroi.Sd.InstanceCache.Arrays.{IsIsolated}
use yoroi.Sd.InstanceCache.Updates.{View, seen, view}
use yoroi.Sd.Endpointer.{
  Endpointer, is_for, event_of, news, Step, instancer, applies, endpoints, apply, receive, hear,
  step, run, new_endpointer,
}
use yoroi.Sd.Endpointer.News.{IsAllShown, IsHeard}
use yoroi.Sd.Endpointer.Broadcasts.{
  IsSpoken, IsOther, IsListening, step-IsSpoken, register-IsSpoken,
}

-- No step of the instancer is the Deregister of the Endpointer.
abbrev pub IsOpen : ℕ → List Step → Type 0
IsOpen ch [] = Unit
IsOpen ch (instancer now s ∷ ss) = IsOther ch s × IsOpen ch ss
IsOpen ch (applies now ∷ ss) = IsOpen ch ss
IsOpen ch (endpoints now ∷ ss) = IsOpen ch ss

is_for_lem : (ch : ℕ) (o : Option ℕ) → o ≡ some ch → is_for ch o ≡ true
is_for_lem ch none e = cc
is_for_lem ch (some c) e = ground (arith, e, ==_iff c ch)

news_lem :
    (c c' : Instances.Cache) (fresh : List Sent) → c'.sent ≡ fresh ++ c.sent → news c c' ≡ fresh
news_lem c c' fresh e =
    let n : length c'.sent - length c.sent ≡ length fresh =
      omega (arith, ap length e, length-append fresh c.sent) in
    ap (λ k. take k c'.sent) n ∙ ap (take (length fresh)) e ∙ take-append fresh c.sent
  where
    take-append : (xs ys : List Sent) → take (length xs) (xs ++ ys) ≡ xs
    take-append [] ys = refl
    take-append (x ∷ xs) ys = ap (λ zs. x ∷ zs) (take-append xs ys)

IsOpen-parts :
    (ch : ℕ) (s : Step) (ss : List Step) → IsOpen ch (s ∷ ss) → IsOpen ch (s ∷ []) × IsOpen ch ss
IsOpen-parts ch (instancer now s) ss o = ((o.0, tt), o.1)
IsOpen-parts ch (applies now) ss o = (tt, o)
IsOpen-parts ch (endpoints now) ss o = (tt, o)

module _ {ℓ} {P : Type ℓ} (factory : Factory P) where
  -- If the view shows no error and no instance twice, the endpoints are for its instances.
  abbrev pub IsFollowing : View → EndpointCache P → Type ℓ
  IsFollowing v c = v.1 ≡ none → Distinct (items v.0) → IsFor factory (items v.0) c

  update-IsFollowing :
      (now : ℕ) (c : EndpointCache P) (v : View) (is : Option (List String)) (e : Option Error)
      → seen is e ≡ v
      → IsOwn factory c.cache
      → IsFollowing v (update factory now c (record { instances = is; err = e }))
  update-IsFollowing now c v is e shows own =
      subst (λ w. IsFollowing w (update factory now c (record { instances = is; err = e }))) shows
        (λ none_wrong d. update-IsFor factory now c is e none_wrong d own)

  -- The event that was taken shows the view, or if there is none then the cache follows it.
  pub data IsAhead (v : View) : EndpointCache P × Option Event → Type ℓ where
    following : (c : EndpointCache P) → IsFollowing v c → IsAhead v (c, none)
    showing :
        (c : EndpointCache P) (event : Event)
        → seen event.instances event.err ≡ v
        → IsAhead v (c, some event)

  apply-IsOwn :
      (now : ℕ) (taken : Option Event) (c : EndpointCache P)
      → IsOwn factory c.cache
      → IsOwn factory (apply factory now taken c).cache
  apply-IsOwn now none c own = own
  apply-IsOwn now (some event) c own = update-IsOwn factory now c event.instances event.err own

  apply-IsFollowing :
      (now : ℕ) (v : View) (c : EndpointCache P) (taken : Option Event)
      → IsOwn factory c.cache
      → IsAhead v (c, taken)
      → IsFollowing v (apply factory now taken c)
  apply-IsFollowing now v c none own (following _ f) = f
  apply-IsFollowing now v c (some event) own (showing _ _ f) =
      update-IsFollowing now c v event.instances event.err f own

  receive-IsOwn :
      (now ch : ℕ) (h : Heap) (xs : List Sent) (s : EndpointCache P × Option Event)
      → IsOwn factory s.0.cache
      → IsOwn factory (receive factory now ch h xs s).0.cache
  receive-IsOwn now ch h [] s own = own
  receive-IsOwn now ch h (x ∷ xs) s own =
      let before = receive factory now ch h xs s in
      let kept = receive-IsOwn now ch h xs s own in
      if_either (λ (d : EndpointCache P × Option Event). IsOwn factory d.0.cache)
        (is_for ch x.channel) (apply factory now before.1 before.0, some (event_of h x)) before
        (λ e. apply-IsOwn now before.1 before.0 kept) (λ e. kept)

  -- Events that all show the same view, of which the goroutine gets one or had one before.
  receive-IsAhead :
      (now ch : ℕ) (v : View) (h : Heap) (xs : List Sent) (s : EndpointCache P × Option Event)
      → IsAllShown v h xs
      → IsAhead v s ⊎ IsHeard ch xs
      → IsAhead v (receive factory now ch h xs s)
  receive-IsAhead now ch v h [] s shown (inl f) = f
  receive-IsAhead now ch v h [] s shown (inr k) = absurd k
  receive-IsAhead now ch v h (x ∷ xs) s shown before_or_heard =
      let before = receive factory now ch h xs s in
      if_either (IsAhead v) (is_for ch x.channel)
        (apply factory now before.1 before.0, some (event_of h x)) before
        (λ e. showing _ _ shown.0.shows)
        (λ e. receive-IsAhead now ch v h xs s shown.1 (elim before_or_heard [
          | inl f ↦ inl f
          | inr k ↦ inr (elim k [
            | inl here ↦ absurd (cc (is_for_lem ch x.channel here, e))
            | inr there ↦ there
          ])
        ]))

  -- Between steps.
  record IsTuned (e : Endpointer P) : Type ℓ where
    listening : IsListening e.ch e.instancer
    own : IsOwn factory e.cache.cache
    ahead : IsAhead (view e.instancer) (e.cache, e.taken)

  hear-IsTuned :
      (now : ℕ) (e : Endpointer P) (c' : Instances.Cache)
      → IsListening e.ch c'
      → IsOwn factory e.cache.cache
      → (s : IsSpoken e.ch e.instancer c')
      → IsAhead (view c') (e.cache, e.taken) ⊎ IsHeard e.ch s.fresh
      → IsTuned (hear factory now e c')
  hear-IsTuned now e c' l own s f =
      let is_fresh = sym (news_lem e.instancer c' s.fresh s.pushed) in
      record {
        listening = l;
        own = receive-IsOwn now e.ch c'.heap (news e.instancer c') (e.cache, e.taken) own;
        ahead =
            subst (λ xs. IsAhead (view c') (receive factory now e.ch c'.heap xs (e.cache, e.taken)))
              is_fresh
              (receive-IsAhead now e.ch (view c') c'.heap s.fresh (e.cache, e.taken) s.shown f);
      }

  -- Endpoints leaves what follows the view as it was.
  endpoints-IsAhead :
      (now : ℕ) (v : View) (c : EndpointCache P) (taken : Option Event)
      → IsAhead v (c, taken)
      → IsAhead v ((endpoints_exclusive factory now c).0, taken)
  endpoints-IsAhead now v c none (following _ f) = following _ (λ none_wrong d.
      let g = f none_wrong d in
      subst (IsFor factory (items v.0)) (sym (endpoints_same factory now c g.0)) g)
  endpoints-IsAhead now v c (some event) (showing _ _ f) = showing _ _ f

  step-IsTuned :
      (e : Endpointer P) (s : Step) → IsOpen e.ch (s ∷ []) → IsTuned e → IsTuned (step factory e s)
  unfolding step
  step-IsTuned e (instancer now s) o h =
      let (l, spoken) = step-IsSpoken e.ch e.instancer s o.0 h.listening in
      hear-IsTuned now e (Instances.step e.instancer s) l h.own spoken (elim spoken.heard [
        | inl same ↦ inl (subst (λ v. IsAhead v (e.cache, e.taken)) (sym same) h.ahead)
        | inr heard ↦ inr heard
      ])
  step-IsTuned e (applies now) o h = record {
    listening = h.listening;
    own = apply-IsOwn now e.taken e.cache h.own;
    ahead = following _ (apply-IsFollowing now (view e.instancer) e.cache e.taken h.own h.ahead);
  }
  step-IsTuned e (endpoints now) o h = record {
    listening = h.listening;
    own = endpoints-IsOwn factory now e.cache h.own;
    ahead = endpoints-IsAhead now (view e.instancer) e.cache e.taken h.ahead;
  }

  ch_kept : (e : Endpointer P) (s : Step) → (step factory e s).ch ≡ e.ch
  unfolding step
  ch_kept e (instancer now s) = refl
  ch_kept e (applies now) = refl
  ch_kept e (endpoints now) = refl

  run-IsTuned :
      (e : Endpointer P) (ss : List Step) → IsOpen e.ch ss → IsTuned e → IsTuned (run factory e ss)
  unfolding run
  run-IsTuned e [] o h = h
  run-IsTuned e (s ∷ ss) o h =
      let parts = IsOpen-parts e.ch s ss o in
      run-IsTuned (step factory e s) ss (subst (λ ch. IsOpen ch ss) (sym (ch_kept e s)) parts.1)
        (step-IsTuned e s parts.0 h)

  new_endpointer-IsTuned :
      (now : ℕ) (options : EndpointerOptions) (src : Instances.Cache) (ch : ℕ)
      → IsIsolated src
      → IsTuned (new_endpointer factory now options src ch)
  unfolding new_endpointer new_endpoint_cache
  new_endpointer-IsTuned now options src ch iso =
      let (l, (spoken, heard)) = register-IsSpoken ch src iso in
      hear-IsTuned now
        (record { cache = new_endpoint_cache options; instancer = src; ch = ch; taken = none })
        (Instances.step src (Instances.registers ch)) l (empty-IsOwn factory) spoken (inr heard)

  -- From NewEndpointer on, until it is closed, whatever happens to the instancer and to the slices that it has
  -- sent, and whenever the goroutine applies what it has taken and Endpoints is called: if the instancer holds no
  -- error and no instance twice, then as soon as the goroutine has applied what it has taken, if anything, the
  -- cache of endpoints has no error, for each of these instances what a call of the factory gave, and nothing
  -- for any other instance.
  pub endpoints_follow :
      (now later : ℕ) (options : EndpointerOptions) (src : Instances.Cache) (ch : ℕ)
      (ss : List Step)
      → IsIsolated src
      → IsOpen ch ss
      → let e = run factory (new_endpointer factory now options src ch) ss in
        let v = view e.instancer in
        v.1 ≡ none
        → Distinct (items v.0)
        → IsFor factory (items v.0) (step factory e (applies later)).cache
  unfolding new_endpointer step
  endpoints_follow now later options src ch ss iso o =
      let e = run factory (new_endpointer factory now options src ch) ss in
      let h =
        run-IsTuned (new_endpointer factory now options src ch) ss o
          (new_endpointer-IsTuned now options src ch iso) in
      apply-IsFollowing later (view e.instancer) e.cache e.taken h.own h.ahead
