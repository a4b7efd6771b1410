-- ===== src/Sd/Consul/Progress.antt =====
-- What the loop of sd/consul/instancer.go does with indices that are too small.
use yoroi.Prelude.{
  ℕ, ◌≤◌, ◌<◌, ◌≡◌, ◌⊎◌, inl, inr, ap, ◌∙◌, String, List, ◌∷◌, Bool, true, false, ◌==◌, ltb, arith,
  if◌then◌else◌, Bool-cases,
}
use yoroi.Sd.Consul.{
  Answer, Fetched, fetched, Loop, first_wait, good, backed_off, handle, counted, get_instances,
  round,
}

module _ (product : ℕ → ℕ → ℕ) where
  handle_ahead :
      (s : Loop) (xs : List String) (i : ℕ)
      → 1 ≤ i
      → s.last_index ≤ i
      → handle product s (fetched xs i)
        ≡ record s { last_index = i; updates = good xs ∷ s.updates; d = first_wait }
  unfolding handle
  handle_ahead s xs i h k =
      let e : (i == 0) ≡ false = ground (arith, h) in
      let e' : ltb i s.last_index ≡ false = ground (arith, k) in rw (e, e')

  handle_behind :
      (s : Loop) (xs : List String) (i : ℕ)
      → 1 ≤ i
      → i < s.last_index
      → handle product s (fetched xs i) ≡ backed_off product (record s { last_index = 0 })
  unfolding handle
  handle_behind s xs i h k =
      let e : (i == 0) ≡ false = ground (arith, h) in
      let e' : ltb i s.last_index ≡ true = ground (arith, k) in rw (e, e')

  module _ {P : Type 0} (text : P → String) (service : ℕ → String → ℕ → Answer P)
      (interrupted : ℕ → Bool) (tags : List String) where
    round_fetched :
        (s : Loop) (f : Fetched)
        → s.returned ≡ false
        → get_instances text service interrupted tags s.calls s.last_index ≡ f
        → round text service interrupted product tags s ≡ counted (handle product s f)
    unfolding round
    round_fetched s f running e =
        ap
          (λ b.
            if b
            then s
            else counted (
                handle product s
                  (get_instances text service interrupted tags s.calls s.last_index)))
          running
        ∙ ap (λ g. counted (handle product s g)) e

    -- If two rounds in succession get instances with an index that is not 0, then the cache gets the
    -- first ones, and the next wait is the shortest one, or the first index was too small and the
    -- cache gets the second ones.
    pub one_of_two_published :
        (s : Loop) (xs ys : List String) (i j : ℕ)
        → s.returned ≡ false
        → let s1 = round text service interrupted product tags s in
          let s2 = round text service interrupted product tags s1 in
          get_instances text service interrupted tags s.calls s.last_index ≡ fetched xs i
          → get_instances text service interrupted tags s1.calls s1.last_index ≡ fetched ys j
          → 1 ≤ i
          → 1 ≤ j
          → ((s1.updates ≡ good xs ∷ s.updates) × (s1.d ≡ first_wait))
            ⊎ ((i < s.last_index) × (s2.updates ≡ good ys ∷ s.updates) × (s2.d ≡ first_wait))
    one_of_two_published s xs ys i j running e e' h h' =
        let s1 = round text service interrupted product tags s in
        let to1 = round_fetched s (fetched xs i) running e in
        elim (Bool-cases (ltb i s.last_index)) [
          | inl behind ↦
              let reset = backed_off product (record s { last_index = 0 }) in
              let is1 : s1 ≡ counted reset =
                to1 ∙ ap counted (handle_behind s xs i h (ground (arith, behind))) in
              let s2_is : round text service interrupted product tags s1
                  ≡ counted (record (counted reset) {
                    last_index = j;
                    updates = good ys ∷ s.updates;
                    d = first_wait;
                  }) =
                round_fetched s1 (fetched ys j) (ap (λ (x : Loop). x.returned) is1 ∙ running) e'
                ∙ ap (λ x. counted (handle product x (fetched ys j))) is1
                ∙ ap counted (handle_ahead (counted reset) ys j h' (omega arith)) in
              inr (
                ground (arith, behind),
                ap (λ (x : Loop). x.updates) s2_is,
                ap (λ (x : Loop). x.d) s2_is,
              )
          | inr ahead ↦
              let is1 = to1 ∙ ap counted (handle_ahead s xs i h (ground (arith, ahead))) in
              inl (ap (λ (x : Loop). x.updates) is1, ap (λ (x : Loop). x.d) is1)
        ]
