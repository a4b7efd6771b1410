-- ===== src/Metrics/Dogstatsd/Gauges.antt =====
-- The gauges that `With` of metrics/dogstatsd/dogstatsd.go finds and makes.
use yoroi.Prelude.{
  ℕ, zero, suc, ◌≡◌, refl, sym, ap, subst, ◌∙◌, inl, inr, String, Option, some, List, [], ◌∷◌, ◌++◌,
  Bool, true, false, ◌&&◌, Bool-cases, str_eq, eq_iff, if◌then◌else◌, arith, length, get_elem?,
  lookup, insert,
}
use yoroi.Metrics.LabelValues.{complete}
use yoroi.Metrics.Space.{Node, node_for, or_new, descend}
use yoroi.Metrics.Space.Series.{
  IsPaired, same_path, series, series-descend, contents, contents-store,
}
use yoroi.Metrics.Dogstatsd.{
  Gauge, Dogstatsd, first_gauge, put_gauge, returned_gauge, add_gauge, placed, placed_below,
  with_of, gauge_with,
}

same_path_refl : (q : List String) → same_path q q ≡ true
same_path_refl [] = refl
same_path_refl (x ∷ xs) = ground (arith, eq_iff x x, same_path_refl xs)

pub same_path_lem : (p q : List String) → same_path p q ≡ true → p ≡ q
same_path_lem [] [] h = refl
same_path_lem [] (y ∷ ys) h = cc
same_path_lem (x ∷ xs) [] h = cc
same_path_lem (x ∷ xs) (y ∷ ys) h = ground (arith, eq_iff x y, same_path_lem xs ys)

pub append-IsPaired : (xs ys : List String) → IsPaired xs → IsPaired ys → IsPaired (xs ++ ys)
append-IsPaired [] ys h k = k
append-IsPaired (l ∷ []) ys h k = absurd h
append-IsPaired (l ∷ v ∷ xs) ys h k = append-IsPaired xs ys h k

module _ {ℓ} {A : Type ℓ} where
  pub get_elem?-kept :
      (xs ys : List A) (i : ℕ) (a : A) → get_elem? xs i ≡ some a → get_elem? (xs ++ ys) i ≡ some a
  get_elem?-kept [] ys i a h = cc
  get_elem?-kept (x ∷ xs) ys zero a h = h
  get_elem?-kept (x ∷ xs) ys (suc i) a h = get_elem?-kept xs ys i a h

  pub get_elem?-new : (xs : List A) (a : A) → get_elem? (xs ++ a ∷ []) (length xs) ≡ some a
  get_elem?-new [] a = refl
  get_elem?-new (x ∷ xs) a = get_elem?-new xs a

first_or : ℕ → List ℕ → ℕ
first_or g [] = g
first_or g (x ∷ xs) = x

first_gauge-put_gauge : (g : ℕ) (o : List ℕ) → first_gauge (put_gauge g o) ≡ some (first_or g o)
unfolding first_or
first_gauge-put_gauge g [] = refl
first_gauge-put_gauge g (x ∷ xs) = refl

module _ {ℓ} {F : Type ℓ} where
  -- The gauge for a name and label values.
  abbrev pub gauge_of : Dogstatsd F → String → List String → Option ℕ
  gauge_of d name q = first_gauge (contents (record { nodes = d.gauges }) name q)

  -- The gauge at a place has the name and the label values of that place.
  abbrev pub IsIndexed : Dogstatsd F → Type ℓ
  IsIndexed d =
      (name : String) (q : List String) (g : ℕ)
      → gauge_of d name q ≡ some g
      → (x : Gauge F) × (get_elem? d.objects g ≡ some x) × (x.name ≡ name) × (x.lvs ≡ q)

  module _ (d : Dogstatsd F) (g : ℕ) (label_values : List String) (x : Gauge F) (n : Node ℕ)
      (found : get_elem? d.objects g ≡ some x) (rooted : lookup x.name d.gauges ≡ some n)
      (paired : IsPaired (x.lvs ++ complete label_values)) where
    abbrev lvs' : List String
    lvs' = x.lvs ++ complete label_values

    abbrev made : Gauge F
    made = record x { lvs = lvs'; set = false }

    abbrev after : Node ℕ → Dogstatsd F
    after n' = record d { gauges = insert x.name n' d.gauges; objects = d.objects ++ made ∷ [] }

    abbrev before : String → List String → List ℕ
    before = contents (record { nodes = d.gauges })

    -- What a place holds afterwards.
    abbrev chosen : Bool → String → List String → List ℕ
    chosen b name q = if b then put_gauge (length d.objects) (before x.name lvs') else before name q

    abbrev expected : String → List String → List ℕ
    expected name q = chosen (str_eq x.name name && same_path lvs' q) name q

    root : node_for x.name d.gauges ≡ n
    root = ap or_new rooted

    -- The tree after `addGauge`.
    grown :
        (n' : Node ℕ) × (gauge_with d g label_values
          ≡ some (after n', first_gauge (series lvs' n')))
        × ((name : String) (q : List String)
            → contents (record { nodes = insert x.name n' d.gauges }) name q ≡ expected name q)
        × (series lvs' n' ≡ put_gauge (length d.objects) (before x.name lvs'))
    unfolding gauge_with add_gauge
    grown =
        let (n', e, k) =
          series-descend (put_gauge (length d.objects)) lvs' (node_for x.name d.gauges) paired in
        let e' : descend (put_gauge (length d.objects)) lvs' n ≡ some n' =
          ap (descend (put_gauge (length d.objects)) lvs') (sym root) ∙ e in
        (
          n',
          ap (with_of d label_values) found
              ∙ ap (placed_below d made) rooted
              ∙ ap (λ o. placed d made (returned_gauge lvs' o)) e',
          contents-store (record { nodes = d.gauges }) x.name lvs'
              (put_gauge (length d.objects) (before x.name lvs')) n' k,
          k lvs' ∙ ap (λ b. chosen b x.name lvs') (same_path_refl lvs'),
        )

    -- The gauge that is returned.
    result : ℕ
    result = first_or (length d.objects) (before x.name lvs')

    of_put :
        (o : List ℕ)
        → ((i : ℕ)
            → first_gauge o ≡ some i
            → (y : Gauge F) × (get_elem? d.objects i ≡ some y) × (y.name ≡ x.name) × (y.lvs ≡ lvs'))
        → (i : ℕ) → first_gauge (put_gauge (length d.objects) o) ≡ some i
        → (y : Gauge F) × (get_elem? (d.objects ++ made ∷ []) i ≡ some y)
          × (y.name ≡ x.name)
          × (y.lvs ≡ lvs')
    of_put [] old i e = (
      made,
      subst (λ j. get_elem? (d.objects ++ made ∷ []) j ≡ some made) (cc e)
          (get_elem?-new d.objects made),
      refl,
      refl,
    )
    of_put (o ∷ os) old i e =
        let (y, at, named, labelled) = old i e in
        (y, get_elem?-kept d.objects (made ∷ []) i y at, named, labelled)

    kept_by_put :
        (o : List ℕ) (i : ℕ)
        → first_gauge o ≡ some i
        → first_gauge (put_gauge (length d.objects) o) ≡ some i
    kept_by_put [] i h = cc
    kept_by_put (o ∷ os) i h = h

    after-IsIndexed :
        IsIndexed d
        → (n' : Node ℕ)
        → ((name : String) (q : List String)
            → contents (record { nodes = insert x.name n' d.gauges }) name q ≡ expected name q)
        → IsIndexed (after n')
    after-IsIndexed indexed n' k name q g h =
        elim (Bool-cases (str_eq x.name name && same_path lvs' q)) [
          | inl here ↦
              let both : (str_eq x.name name ≡ true) × (same_path lvs' q ≡ true) =
                ground (arith, here) in
              let same : x.name ≡ name = (eq_iff x.name name).0 both.0 in
              let e : first_gauge (put_gauge (length d.objects) (before x.name lvs')) ≡ some g =
                sym (ap first_gauge (k name q ∙ ap (λ b. chosen b name q) here)) ∙ h in
              let (y, at, named, labelled) =
                of_put (before x.name lvs') (indexed x.name lvs') g e in
              (y, at, named ∙ same, labelled ∙ same_path_lem lvs' q both.1)
          | inr elsewhere ↦
              let e = sym (ap first_gauge (k name q ∙ ap (λ b. chosen b name q) elsewhere)) ∙ h in
              let (y, at, named, labelled) = indexed name q g e in
              (y, get_elem?-kept d.objects (made ∷ []) g y at, named, labelled)
        ]

    hit : (str_eq x.name x.name && same_path lvs' lvs') ≡ true
    hit = ground (arith, eq_iff x.name x.name, same_path_refl lvs')

    kept :
        (name : String) (q : List String) (i : ℕ) {now : List ℕ}
        → first_gauge (before name q) ≡ some i
        → now ≡ expected name q
        → first_gauge now ≡ some i
    kept name q i h e = elim (Bool-cases (str_eq x.name name && same_path lvs' q)) [
      | inl here ↦
          let both : (str_eq x.name name ≡ true) × (same_path lvs' q ≡ true) =
            ground (arith, here) in
          let place : before name q ≡ before x.name lvs' =
            ap (λ m. before m q) (sym ((eq_iff x.name name).0 both.0))
            ∙ ap (before x.name) (sym (same_path_lem lvs' q both.1)) in
          ap first_gauge (e ∙ ap (λ b. chosen b name q) here)
          ∙ kept_by_put (before x.name lvs') i (sym (ap first_gauge place) ∙ h)
      | inr elsewhere ↦ ap first_gauge (e ∙ ap (λ b. chosen b name q) elsewhere) ∙ h
    ]

    -- If every gauge stands where its name and its label values say, With returns the gauge for the
    -- name and the old label values followed by the given ones, every gauge that stood somewhere
    -- still does, so that the same call returns the same gauge again, and all stand where they should.
    pub gauge_with_lem :
        IsIndexed d
        → (d' : Dogstatsd F) × (g' : ℕ) × (gauge_with d g label_values ≡ some (d', some g'))
          × (gauge_of d' x.name (x.lvs ++ complete label_values) ≡ some g')
          × ((name : String) (q : List String) (i : ℕ)
              → gauge_of d name q ≡ some i
              → gauge_of d' name q ≡ some i)
          × IsIndexed d'
    unfolding result first_or
    gauge_with_lem indexed =
        let (n', e, k, own) = grown in
        (
          after n',
          result,
          e ∙ ap (λ o. some (after n', o)) (ap first_gauge own ∙ first_gauge-put_gauge _ _),
          ap first_gauge (k x.name lvs' ∙ ap (λ b. chosen b x.name lvs') hit)
              ∙ first_gauge-put_gauge _ _,
          λ name q i h. kept name q i h (k name q),
          after-IsIndexed indexed n' k,
        )
