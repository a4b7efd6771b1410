-- ===== src/Metrics/Dogstatsd/NewGauge.antt =====
-- The gauges that NewGauge of metrics/dogstatsd/dogstatsd.go makes.
use yoroi.Prelude.{
  ℕ, ◌≡◌, refl, sym, ap, subst, ◌∙◌, inl, inr, String, Option, none, some, List, [], ◌∷◌, ◌++◌,
  true, false, ◌&&◌, Bool-cases, str_eq, eq_iff, if◌then◌else◌, arith, length, get_elem?, lookup,
  insert,
}
use yoroi.Metrics.Space.{Node, node, nil, node_for, or_new, empty_node}
use yoroi.Metrics.Space.Series.{same_path, series, contents, contents-store}
use yoroi.Metrics.Dogstatsd.{Gauge, Dogstatsd, first_gauge, fresh_gauge, gauge_or_fresh, new_gauge}
use yoroi.Metrics.Dogstatsd.Gauges.{
  IsIndexed, gauge_of, same_path_lem, get_elem?-kept, get_elem?-new,
}

series_empty : (q : List String) → series q (empty_node {F = ℕ}) ≡ []
unfolding series
series_empty [] = refl
series_empty (x ∷ []) = refl
series_empty (x ∷ y ∷ q) = series_empty q

series_single :
    (g : ℕ) (q : List String)
    → series q (node (g ∷ []) nil)
      ≡ (if same_path [] q then g ∷ [] else series q (empty_node {F = ℕ}))
unfolding series
series_single g [] = refl
series_single g (x ∷ []) = refl
series_single g (x ∷ y ∷ q) = refl

module _ {ℓ} {F : Type ℓ} where
  pub without_gauges-IsIndexed : (d : Dogstatsd F) → d.gauges ≡ [] → IsIndexed d
  unfolding lookup
  without_gauges-IsIndexed d e name q g h =
      let none_there : gauge_of d name q ≡ none =
        ap (λ nodes. first_gauge (contents (record { nodes = nodes }) name q)) e
        ∙ ap first_gauge (series_empty q) in
      absurd (cc (h, none_there))

  -- A gauge under a new name stands where it should.
  fresh_gauge-IsIndexed :
      (zero' : F) (d : Dogstatsd F) (name : String)
      → lookup name d.gauges ≡ none
      → IsIndexed d
      → IsIndexed (fresh_gauge zero' d name).0
  fresh_gauge-IsIndexed zero' d name absent indexed other q g h =
      let fresh : Gauge F = record { value = zero'; name = name; lvs = []; set = false } in
      let own = length d.objects in
      let empty : node_for name d.gauges ≡ empty_node = ap or_new absent in
      let k : contents (record { nodes = insert name (node (own ∷ []) nil) d.gauges }) other q ≡ (
          if str_eq name other && same_path [] q
          then own ∷ []
          else contents (record { nodes = d.gauges }) other q) =
        contents-store (record { nodes = d.gauges }) name [] (own ∷ []) (node (own ∷ []) nil)
          (λ p.
            series_single own p
            ∙ ap (λ n. if same_path [] p then own ∷ [] else series p n) (sym empty))
          other q in
      elim (Bool-cases (str_eq name other && same_path [] q)) [
        | inl here ↦
            let both : (str_eq name other ≡ true) × (same_path [] q ≡ true) =
              ground (arith, here) in
            let e : first_gauge (own ∷ []) ≡ some g =
              sym (
                ap first_gauge (
                  k
                  ∙ ap (λ b. if b then own ∷ [] else contents (record { nodes = d.gauges }) other q)
                      here))
              ∙ h in
            (
              fresh,
              subst (λ i. get_elem? (d.objects ++ fresh ∷ []) i ≡ some fresh) (cc e)
                  (get_elem?-new d.objects fresh),
              (eq_iff name other).0 both.0,
              same_path_lem [] q both.1,
            )
        | inr elsewhere ↦
            let e =
              sym (
                ap first_gauge (
                  k
                  ∙ ap (λ b. if b then own ∷ [] else contents (record { nodes = d.gauges }) other q)
                      elsewhere))
              ∙ h in
            let (y, at, named, labelled) = indexed other q g e in
            (y, get_elem?-kept d.objects (fresh ∷ []) g y at, named, labelled)
      ]

  gauge_or_fresh-IsIndexed :
      (zero' : F) (d : Dogstatsd F) (name : String) (o : Option (Node ℕ))
      → lookup name d.gauges ≡ o
      → IsIndexed d
      → IsIndexed (gauge_or_fresh zero' d name o).0
  gauge_or_fresh-IsIndexed zero' d name none e h = fresh_gauge-IsIndexed zero' d name e h
  gauge_or_fresh-IsIndexed zero' d name (some (node own cs)) e h = h

  pub new_gauge-IsIndexed :
      (zero' : F) (d : Dogstatsd F) (name : String)
      → IsIndexed d
      → IsIndexed (new_gauge zero' d name).0
  unfolding new_gauge
  new_gauge-IsIndexed zero' d name =
      gauge_or_fresh-IsIndexed zero' d name (lookup name d.gauges) refl
