-- ===== src/Sd/Dnssrv/Lookups.antt =====
-- Which events the loop of sd/dnssrv/instancer.go gives to its cache.
use yoroi.Prelude.{
  ℕ, ◌≡◌, ◌≢◌, ◌⊎◌, inl, inr, refl, ap, sym, subst, ◌∙◌, String, none, some, List, [], ◌∷◌, map,
  Bool, true, false, ◌==◌, ==_iff, if◌then◌else◌, Bool-cases,
}
use yoroi.Sd.Event.{Event}
use yoroi.Sd.Dnssrv.{
  Srv, Answer, failed, found, Resolved, refused, resolved, err_port_zero, after_first, Loop,
  Selected, ticked, quit, told, resolve_all, resolve, round, loop, new_instancer_detailed,
}

-- No record has the port 0, and some record has it.
abbrev pub IsPorted : List Srv → Type 0
IsPorted [] = Unit
IsPorted (addr ∷ addrs) = (addr.port ≢ 0) × IsPorted addrs

abbrev pub IsUnported : List Srv → Type 0
IsUnported [] = ⊥
IsUnported (addr ∷ addrs) = (addr.port ≡ 0) ⊎ IsUnported addrs

-- The cases for some lookups at ticks, before further ones.
abbrev pub ticks : List Answer → List Selected → List Selected
ticks [] rest = rest
ticks (answer ∷ answers) rest = ticked answer ∷ ticks answers rest

-- Some lookups, the last one first, before earlier ones.
abbrev pub latest : List Answer → List Answer → List Answer
latest [] before = before
latest (answer ∷ answers) before = latest answers (answer ∷ before)

module _ (join_host_port : String → ℕ → String) where
  -- The event that a lookup calls for.
  abbrev pub IsTold : Answer → Event → Type 0
  IsTold (failed err) event = event ≡ record { instances = none; err = some err }
  IsTold (found addrs) event =
      (IsPorted addrs
        × (event ≡ record {
          instances = some (map (λ a. join_host_port a.target a.port) addrs);
          err = none;
        }))
      ⊎ (IsUnported addrs × (event ≡ record { instances = none; err = some err_port_zero }))

  -- One event for each lookup.
  abbrev pub IsToldAll : List Answer → List Event → Type 0
  IsToldAll [] [] = Unit
  IsToldAll [] (event ∷ events) = ⊥
  IsToldAll (answer ∷ answers) [] = ⊥
  IsToldAll (answer ∷ answers) (event ∷ events) = IsTold answer event × IsToldAll answers events

  resolve_all-IsPorted :
      (addrs : List Srv)
      → (IsPorted addrs
          × (resolve_all join_host_port addrs
              ≡ resolved (map (λ a. join_host_port a.target a.port) addrs)))
        ⊎ (IsUnported addrs × (resolve_all join_host_port addrs ≡ refused err_port_zero))
  unfolding resolve_all
  resolve_all-IsPorted [] = inl (tt, refl)
  resolve_all-IsPorted (addr ∷ addrs) =
      let rest = resolve_all join_host_port addrs in
      let here = join_host_port addr.target addr.port in
      let branch : Bool → Resolved → Resolved =
        λ b r. if b then refused err_port_zero else after_first here r in
      elim (Bool-cases (addr.port == 0)) [
        | inl e ↦ inr (inl ((==_iff addr.port 0).0 e), ap (λ b. branch b rest) e)
        | inr e ↦ elim (resolve_all-IsPorted addrs) [
          | inl (h, k) ↦ inl (
            (λ z. cc ((==_iff addr.port 0).1 z, e), h),
            ap (λ b. branch b rest) e ∙ ap (after_first here) k,
          )
          | inr (h, k) ↦ inr (inr h, ap (λ b. branch b rest) e ∙ ap (after_first here) k)
        ]
      ]

  told-IsToldAll :
      (s : Loop) (answer : Answer) (before : List Answer)
      → IsToldAll before s.updates
      → IsToldAll (answer ∷ before) (told s (resolve join_host_port answer)).updates
  unfolding resolve
  told-IsToldAll s (failed err) before h = (refl, h)
  told-IsToldAll s (found addrs) before h = elim (resolve_all-IsPorted addrs) [
    | inl (ported, e) ↦
        subst (λ r. IsToldAll (found addrs ∷ before) (told s r).updates) (sym e)
          (inl (ported, refl), h)
    | inr (unported, e) ↦
        subst (λ r. IsToldAll (found addrs ∷ before) (told s r).updates) (sym e)
          (inr (unported, refl), h)
  ]

  told_runs : (s : Loop) (r : Resolved) → s.returned ≡ false → (told s r).returned ≡ false
  told_runs s (refused err) h = h
  told_runs s (resolved instances) h = h

  loop_ended : (s : Loop) (es : List Selected) → s.returned ≡ true → loop join_host_port s es ≡ s
  unfolding loop round
  loop_ended s [] h = refl
  loop_ended s (e ∷ es) h =
      let here : round join_host_port s e ≡ s = rw h refl in
      ap (λ x. loop join_host_port x es) here ∙ loop_ended s es h

  loop-IsToldAll :
      (s : Loop) (answers before : List Answer) (later : List Selected)
      → s.returned ≡ false
      → IsToldAll before s.updates
      → IsToldAll
          (latest answers before)
          (loop join_host_port s (ticks answers (quit ∷ later))).updates
  unfolding loop round
  loop-IsToldAll s [] before later h k =
      let here : round join_host_port s quit ≡ record s { returned = true } = rw h refl in
      subst (λ (x : Loop). IsToldAll before x.updates)
        (sym (
          ap (λ x. loop join_host_port x later) here
          ∙ loop_ended (record s { returned = true }) later refl))
        k
  loop-IsToldAll s (answer ∷ answers) before later h k =
      let s' = told s (resolve join_host_port answer) in
      let here : round join_host_port s (ticked answer) ≡ s' = rw h refl in
      subst
        (λ (x : Loop).
          IsToldAll (latest answers (answer ∷ before))
            (loop join_host_port x (ticks answers (quit ∷ later))).updates)
        (sym here)
        (loop-IsToldAll s' answers (answer ∷ before) later (told_runs s _ h)
          (told-IsToldAll s answer before k))

  -- Until the instancer is stopped, each lookup gives the cache one event, and none follows after that:
  -- the instances for its records in their order if none has the port 0, and an event with no
  -- instances and the error otherwise, whatever instances the cache had before.
  pub told_each_lookup :
      (first : Answer) (answers : List Answer) (later : List Selected)
      → IsToldAll
          (latest answers (first ∷ []))
          (loop join_host_port
            (new_instancer_detailed join_host_port first)
            (ticks answers (quit ∷ later))).updates
  unfolding new_instancer_detailed
  told_each_lookup first answers later =
      loop-IsToldAll _ answers (first ∷ []) later (told_runs _ _ refl)
        (told-IsToldAll _ first [] tt)
