-- ===== src/Metrics/Dogstatsd/Passes.antt =====
-- What metrics/dogstatsd/dogstatsd.go writes for series and for gauges, if nothing fails.
use mathlib.Core.List.{append_assoc}
use yoroi.Prelude.{
  ℕ, zero, suc, ◌≡◌, refl, sym, ap, subst, ◌∙◌, inl, inr, String, Option, none, some, List, [], ◌∷◌,
  ◌++◌, true, false, Bool-cases, if◌then◌else◌, get_elem?, Assoc,
}
use yoroi.Metrics.Space.{Node, and_then, walk_nodes}
use yoroi.Metrics.Space.Series.{IsPaired}
use yoroi.Metrics.Space.Walks.{Shown, entries, walk_list, walk-walk_list}
use yoroi.Metrics.Emit.{Floats, IoWriter, Out, emit, emit_all}
use yoroi.Metrics.Emit.Walking.{Series, all_series, all_lines, walk_nodes-emit_all}
use yoroi.Metrics.Dogstatsd.{Layout, Naming, Gauge, update_at}
use yoroi.Metrics.Dogstatsd.Lines.{gauge_line, and_cleared, write_gauge, visit_gauge, write_roots}
use yoroi.Metrics.Emit.Feeding.{
  IsMadeOf, IsCalm, IsFed, IsFed-append, IsFed-none, emit_all_good, emit_made_good,
}
use yoroi.Metrics.Dogstatsd.Made.{all_series-IsMadeOf, line-IsMadeOf}

-- The gauges of a tree, parents first.
abbrev pub shown_gauges : Shown ℕ → List ℕ → List ℕ
shown_gauges [] rest = rest
shown_gauges ((lvs, []) ∷ shown) rest = shown_gauges shown rest
shown_gauges ((lvs, g ∷ gs) ∷ shown) rest = g ∷ shown_gauges shown rest

abbrev pub all_gauges : Assoc (Node ℕ) → List ℕ
all_gauges [] = []
all_gauges ((name, n) ∷ nodes) = shown_gauges (entries [] n []) (all_gauges nodes)

module _ {F : Type 0} where
  abbrev pub cleared_if : Option (Gauge F) → List (Gauge F) → ℕ → List (Gauge F)
  cleared_if none objects g = objects
  cleared_if (some x) objects g = update_at objects g (λ y. record y { set = false })

  abbrev pub after_gauges : List ℕ → List (Gauge F) → List (Gauge F)
  after_gauges [] objects = objects
  after_gauges (g ∷ gs) objects = after_gauges gs (cleared_if (get_elem? objects g) objects g)

  -- All gauges have label values in pairs.
  abbrev pub IsPairedAll : List (Gauge F) → Type 0
  IsPairedAll [] = Unit
  IsPairedAll (x ∷ xs) = IsPaired x.lvs × IsPairedAll xs

  get_elem?-IsPaired :
      (objects : List (Gauge F)) (g : ℕ) (x : Gauge F)
      → get_elem? objects g ≡ some x
      → IsPairedAll objects
      → IsPaired x.lvs
  get_elem?-IsPaired [] g x e h = cc
  get_elem?-IsPaired (o ∷ os) zero x e h =
      subst (λ y. IsPaired y)
        (ap (λ y. elim y as (λ _. List String) [ none ↦ [] | some z ↦ z.lvs ]) e) h.0
  get_elem?-IsPaired (o ∷ os) (suc g) x e h = get_elem?-IsPaired os g x e h.1

  cleared-IsPairedAll :
      (objects : List (Gauge F)) (g : ℕ)
      → IsPairedAll objects
      → IsPairedAll (update_at objects g (λ y. record y { set = false }))
  cleared-IsPairedAll [] g h = h
  cleared-IsPairedAll (o ∷ os) zero h = h
  cleared-IsPairedAll (o ∷ os) (suc g) h = (h.0, cleared-IsPairedAll os g h.1)

module _ {F : Type 0} (fl : Floats F) (layout : Layout) (d : Naming F) where
  -- The line of a gauge, if it is set.
  abbrev pub pending : Option (Gauge F) → List (Option String)
  pending none = []
  pending (some x) = if x.set then gauge_line fl layout d x ∷ [] else []

  abbrev pub gauge_lines : List ℕ → List (Gauge F) → List (Option String)
  gauge_lines [] objects = []
  gauge_lines (g ∷ gs) objects =
      pending (get_elem? objects g) ++ gauge_lines gs (cleared_if (get_elem? objects g) objects g)

module _ {F W : Type 0} (fl : Floats F) (io : IoWriter W) (layout : Layout) (d : Naming F)
    (good : (w : W) (l : String) → (io.print w l).2 ≡ none) (own : IsPaired d.lvs) where
  pub walk_good :
      (lines : Series F → List (Option String)) (nodes : Assoc (Node F)) (out : Out W)
      → ((x : Series F) → IsPaired x.lvs → IsMadeOf (lines x))
      → IsCalm io out
      → IsFed io
          (all_lines lines (all_series nodes))
          out
          (walk_nodes
            (λ name lvs values out'.
              emit_all io (lines (record { name = name; lvs = lvs; values = values })) out')
            nodes
            out).0
  walk_good lines nodes out made calm =
      subst (λ r. IsFed io (all_lines lines (all_series nodes)) out r.0)
        (sym (walk_nodes-emit_all io lines nodes out))
        (emit_all_good io good (all_lines lines (all_series nodes)) out
          (all_series-IsMadeOf lines made nodes) calm).1

  -- The gauges of one tree.
  gauge_good :
      (g : ℕ) (o : Option (Gauge F)) (out : Out W) (objects : List (Gauge F))
      → ((x : Gauge F) → o ≡ some x → IsPaired x.lvs)
      → IsCalm io out
      → (out' : Out W) × (write_gauge fl io layout d g o (out, objects)
          ≡ ((out', cleared_if o objects g), true))
        × IsFed io (pending fl layout d o) out out'
  gauge_good g none out objects h calm = (out, refl, IsFed-none io out calm)
  gauge_good g (some x) out objects h calm = elim (Bool-cases x.set) [
    | inl set ↦
        let (out', e, fed) =
          emit_made_good io good (gauge_line fl layout d x) out
            (line-IsMadeOf layout d own x.name x.lvs (fl.text x.value) "g" "" [] (h x refl) tt)
            calm in
        (
          out',
          ap
                (λ b.
                  and_cleared fl io layout objects g
                    (if b then emit io (gauge_line fl layout d x) out else (out, true)))
                set
              ∙ ap (and_cleared fl io layout objects g) e,
          subst (λ b. IsFed io (if b then gauge_line fl layout d x ∷ [] else []) out out') (sym set)
              fed,
        )
    | inr unset ↦ (
      out,
      ap
          (λ b.
            and_cleared fl io layout objects g
              (if b then emit io (gauge_line fl layout d x) out else (out, true)))
          unset,
      subst (λ b. IsFed io (if b then gauge_line fl layout d x ∷ [] else []) out out) (sym unset)
          (IsFed-none io out calm),
    )
  ]

  paired_after :
      (o : Option (Gauge F)) (objects : List (Gauge F)) (g : ℕ)
      → IsPairedAll objects
      → IsPairedAll (cleared_if o objects g)
  paired_after none objects g h = h
  paired_after (some x) objects g h = cleared-IsPairedAll objects g h

  -- The gauges of one root, as a list.
  shown_good :
      (shown : Shown ℕ) (rest : List ℕ) (out : Out W) (objects : List (Gauge F))
      → IsPairedAll objects
      → IsCalm io out
      → (out' : Out W) × (objects' : List (Gauge F)) × (lines : List (Option String)) × ((walk_list
            (visit_gauge fl io layout d)
            shown
            (out, objects)).0
          ≡ (out', objects'))
        × IsFed io lines out out'
        × IsPairedAll objects'
        × (gauge_lines fl layout d (shown_gauges shown rest) objects
            ≡ lines ++ gauge_lines fl layout d rest objects')
        × (after_gauges (shown_gauges shown rest) objects ≡ after_gauges rest objects')
  unfolding walk_list
  shown_good [] rest out objects p c = (out, objects, [], refl, IsFed-none io out c, p, refl, refl)
  shown_good ((lvs, []) ∷ shown) rest out objects p c = shown_good shown rest out objects p c
  shown_good ((lvs, g ∷ gs) ∷ shown) rest out objects p c =
      let o = get_elem? objects g in
      let (out1, e, fed) =
        gauge_good g o out objects (λ x h. get_elem?-IsPaired objects g x h p) c in
      let (out', objects', lines, e', fed', p', l, a) =
        shown_good shown rest out1 (cleared_if o objects g) (paired_after o objects g p) fed.calm in
      (
        out',
        objects',
        pending fl layout d o ++ lines,
        ap (λ r. (and_then r (walk_list (visit_gauge fl io layout d) shown)).0) e ∙ e',
        IsFed-append io (pending fl layout d o) lines out out1 out' fed fed',
        p',
        ap (λ ls. pending fl layout d o ++ ls) l
            ∙ sym (append_assoc (pending fl layout d o) lines _),
        a,
      )

  pub roots_good :
      (nodes : Assoc (Node ℕ)) (out : Out W) (objects : List (Gauge F))
      → IsPairedAll objects
      → IsCalm io out
      → (out' : Out W) × (write_roots fl io layout d nodes (out, objects)
          ≡ (out', after_gauges (all_gauges nodes) objects))
        × IsFed io (gauge_lines fl layout d (all_gauges nodes) objects) out out'
  roots_good [] out objects p c = (out, refl, IsFed-none io out c)
  roots_good ((name, n) ∷ nodes) out objects p c =
      let (out1, objects1, lines, e, fed, p1, l, a) =
        shown_good (entries [] n []) (all_gauges nodes) out objects p c in
      let (out', e', fed') = roots_good nodes out1 objects1 p1 fed.calm in
      (
        out',
        ap (λ r. write_roots fl io layout d nodes r.0)
              (walk-walk_list (visit_gauge fl io layout d) n (out, objects))
            ∙ ap (write_roots fl io layout d nodes) e
            ∙ e'
            ∙ ap (λ os. (out', os)) (sym a),
        subst (λ ls. IsFed io ls out out') (sym l)
            (IsFed-append io lines (gauge_lines fl layout d (all_gauges nodes) objects1) out out1
              out' fed fed'),
      )
