-- ===== src/Metrics/Space/Series.antt =====
-- metrics/internal/lv/space.go as a flat map from a name and label values to observations.
use yoroi.Prelude.{
  String, ◌≡◌, refl, ap, ◌∙◌, inl, inr, Option, some, List, [], ◌∷◌, ◌++◌, Bool, true, false, ◌&&◌,
  arith, eq_iff, str_eq, Assoc, if◌then◌else◌, lookup, insert, lookup-insert, Bool-cases,
}
use yoroi.Metrics.Space.{
  Node, node, Children, nil, cons, same_pair, empty_node, at_child, descend, observe, last, add_to,
  add, or_new, node_for, Space, observe_in, add_in,
}

-- Label values come in pairs.
abbrev pub IsPaired : List String → Type 0
IsPaired [] = Unit
IsPaired (l ∷ []) = ⊥
IsPaired (l ∷ v ∷ tail) = IsPaired tail

abbrev pub same_path : List String → List String → Bool
same_path [] [] = true
same_path [] (y ∷ ys) = false
same_path (x ∷ xs) [] = false
same_path (x ∷ xs) (y ∷ ys) = str_eq x y && same_path xs ys

module _ {ℓ} {F : Type ℓ} where
  abbrev pub child : String → String → Children F → Node F
  child l v nil = empty_node
  child l v (cons l' v' n rest) = if same_pair l' v' l v then n else child l v rest

  -- The observations at the end of a path.
  unfoldable pub series : List String → Node F → List F
  series [] (node observations children) = observations
  series (l ∷ []) n = []
  series (l ∷ v ∷ tail) (node observations children) = series tail (child l v children)

  child-at_child :
      (change : Node F → Option (Node F)) (l v : String) (cs : Children F) (n' : Node F)
      → change (child l v cs) ≡ some n'
      → (cs' : Children F) × (at_child change l v cs ≡ some cs')
        × ((x y : String) → child x y cs' ≡ (if same_pair l v x y then n' else child x y cs))
  unfolding at_child
  child-at_child change l v nil n' h = (cons l v n' nil, rw h, λ x y. refl)
  child-at_child change l v (cons l' v' n rest) n' h = elim (Bool-cases (same_pair l' v' l v)) [
    | inl hit ↦ (
      cons l' v' n' rest,
      ground (arith, hit),
      λ x y. ground (arith, hit, eq_iff l' l, eq_iff v' v),
    )
    | inr miss ↦
        let (cs', e, k) = child-at_child change l v rest n' (ground (arith, miss)) in
        (
          cons l' v' n cs',
          rw (miss, e),
          λ x y. ground (
            arith,
            miss,
            k x y,
            eq_iff l' l,
            eq_iff v' v,
            eq_iff l' x,
            eq_iff v' y,
            eq_iff l x,
            eq_iff v y,
          ),
        )
  ]

  series_at_end :
      (change : List F → List F) (o : List F) (cs : Children F) (q : List String)
      → series q (node (change o) cs) ≡ (if same_path [] q then change o else series q (node o cs))
  unfolding series
  series_at_end change o cs [] = refl
  series_at_end change o cs (x ∷ []) = refl
  series_at_end change o cs (x ∷ y ∷ p) = refl

  -- From the change of one child to the change below a node.
  series_below :
      (r : List F) (l v : String) (tail : List String) (o : List F) (cs cs' : Children F)
      (n' : Node F)
      → ((x y : String) → child x y cs' ≡ (if same_pair l v x y then n' else child x y cs))
      → ((p : List String)
          → series p n' ≡ (if same_path tail p then r else series p (child l v cs)))
      → (q : List String)
      → series q (node o cs') ≡ (if same_path (l ∷ v ∷ tail) q then r else series q (node o cs))
  unfolding series
  series_below r l v tail o cs cs' n' k ih [] = refl
  series_below r l v tail o cs cs' n' k ih (x ∷ []) = ground arith
  series_below r l v tail o cs cs' n' k ih (x ∷ y ∷ p) =
      rw (k x y) (ground (arith, ih p, eq_iff l x, eq_iff v y))

  -- A change at a path of paired label values happens there and nowhere else, and does not panic.
  pub series-descend :
      (change : List F → List F) (lvs : List String) (n : Node F)
      → IsPaired lvs
      → (n' : Node F) × (descend change lvs n ≡ some n')
        × ((q : List String)
            → series q n' ≡ (if same_path lvs q then change (series lvs n) else series q n))
  unfolding descend series
  series-descend change [] (node o cs) h = (node (change o) cs, refl, series_at_end change o cs)
  series-descend change (l ∷ []) n h = elim h [ ]
  series-descend change (l ∷ v ∷ tail) (node o cs) h =
      let (n', e, ih) = series-descend change tail (child l v cs) h in
      let (cs', d, k) = child-at_child (descend change tail) l v cs n' e in
      (
        node o cs',
        rw d,
        series_below (change (series tail (child l v cs))) l v tail o cs cs' n' k ih,
      )

  -- What a space holds for a name and label values.
  abbrev pub contents : Space F → String → List String → List F
  contents s name q = series q (node_for name s.nodes)

  node_for-insert :
      (name other : String) (n : Node F) (nodes : Assoc (Node F))
      → node_for other (insert name n nodes)
        ≡ (if str_eq name other then n else node_for other nodes)
  node_for-insert name other n nodes =
      let h : or_new (if str_eq name other then some n else lookup other nodes)
          ≡ (if str_eq name other then n else or_new (lookup other nodes)) =
        ground arith in
      ap or_new (lookup-insert name other n nodes) ∙ h

  pub contents-store :
      (s : Space F) (name : String) (lvs : List String) (r : List F) (n' : Node F)
      → ((q : List String)
          → series q n' ≡ (if same_path lvs q then r else series q (node_for name s.nodes)))
      → (other : String) (q : List String)
      → contents (record { nodes = insert name n' s.nodes }) other q
        ≡ (if str_eq name other && same_path lvs q then r else contents s other q)
  contents-store s name lvs r n' h other q =
      let e : series q (if str_eq name other then n' else node_for other s.nodes)
          ≡ (if str_eq name other && same_path lvs q then r else contents s other q) =
        ground (arith, h q, eq_iff name other) in
      ap (series q) (node_for-insert name other n' s.nodes) ∙ e

  -- With label values in pairs, `Observe` does not panic, and appends the value to the observations
  -- under exactly that name and those label values.
  pub contents-observe_in :
      (s : Space F) (name : String) (lvs : List String) (value : F)
      → IsPaired lvs
      → (s' : Space F) × (observe_in s name lvs value ≡ some s')
        × ((other : String) (q : List String)
            → contents s' other q ≡ (
                if str_eq name other && same_path lvs q
                then contents s name lvs ++ value ∷ []
                else contents s other q))
  unfolding observe_in observe
  contents-observe_in s name lvs value h =
      let (n', e, k) = series-descend (λ o. o ++ value ∷ []) lvs (node_for name s.nodes) h in
      (
        record { nodes = insert name n' s.nodes },
        rw e,
        contents-store s name lvs (contents s name lvs ++ value ∷ []) n' k,
      )

  -- With label values in pairs, `Add` does not panic, and appends the sum of the last observation and
  -- the delta, or the delta if there is none, under exactly that name and those label values.
  pub contents-add_in :
      (plus : F → F → F) (s : Space F) (name : String) (lvs : List String) (delta : F)
      → IsPaired lvs
      → (s' : Space F) × (add_in plus s name lvs delta ≡ some s')
        × ((other : String) (q : List String)
            → contents s' other q ≡ (
                if str_eq name other && same_path lvs q
                then contents s name lvs ++ add_to plus delta (last (contents s name lvs)) ∷ []
                else contents s other q))
  unfolding add_in add
  contents-add_in plus s name lvs delta h =
      let change = λ (o : List F). o ++ add_to plus delta (last o) ∷ [] in
      let (n', e, k) = series-descend change lvs (node_for name s.nodes) h in
      (
        record { nodes = insert name n' s.nodes },
        rw e,
        contents-store s name lvs (change (contents s name lvs)) n' k,
      )
