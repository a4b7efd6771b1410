-- ===== src/Metrics/Emit/Walking.antt =====
-- The callbacks of `WriteTo` over all series of a space.
use yoroi.Prelude.{fun_ext, ◌≡◌, refl, ap, sym, ◌∙◌, String, Option, List, [], ◌∷◌, ◌++◌, Assoc}
use yoroi.Metrics.Space.{Node, Visitor, and_then, walk_nodes}
use yoroi.Metrics.Space.Walks.{Shown, entries, walk_list, and_then_assoc, walk-walk_list}
use yoroi.Metrics.Emit.{IoWriter, Out, emit, emit_all}

-- The series of a space that are not empty, with their names.
pub record Series {ℓ} (F : Type ℓ) : Type ℓ where
  pub name : String
  pub lvs : List String
  pub values : List F

module _ {ℓ} {F : Type ℓ} where
  abbrev pub named : String → Shown F → List (Series F) → List (Series F)
  named name [] rest = rest
  named name ((lvs, values) ∷ shown) rest =
      record { name = name; lvs = lvs; values = values } ∷ named name shown rest

  abbrev pub all_series : Assoc (Node F) → List (Series F)
  all_series [] = []
  all_series ((name, n) ∷ nodes) = named name (entries [] n []) (all_series nodes)

module _ {ℓ} {F : Type ℓ} where
  -- The lines of all series, by those of each.
  abbrev pub all_lines : (Series F → List (Option String)) → List (Series F) → List (Option String)
  all_lines lines [] = []
  all_lines lines (x ∷ xs) = lines x ++ all_lines lines xs

module _ {ℓ} {W : Type ℓ} (io : IoWriter W) where
  emit_all-append :
      (xs ys : List (Option String)) (out : Out W)
      → emit_all io (xs ++ ys) out ≡ and_then (emit_all io xs out) (emit_all io ys)
  unfolding emit_all
  emit_all-append [] ys out = refl
  emit_all-append (x ∷ xs) ys out =
      ap (and_then (emit io x out)) (fun_ext (emit_all-append xs ys))
      ∙ sym (and_then_assoc (emit io x out) (emit_all io xs) (emit_all io ys))

module _ {ℓ} {F W : Type ℓ} (io : IoWriter W) where
  module _ (lines : Series F → List (Option String)) where
    -- The callback of a `Walk` that writes some lines for each series.
    abbrev pub visitor : String → Visitor (Out W) F
    visitor name lvs values out =
        emit_all io (lines (record { name = name; lvs = lvs; values = values })) out

    walk_list-emit_all :
        (name : String) (shown : Shown F) (rest : List (Series F)) (out : Out W)
        → and_then (walk_list (visitor name) shown out) (emit_all io (all_lines lines rest))
          ≡ emit_all io (all_lines lines (named name shown rest)) out
    unfolding walk_list emit_all
    walk_list-emit_all name [] rest out = refl
    walk_list-emit_all name ((lvs, values) ∷ shown) rest out =
        let own = lines (record { name = name; lvs = lvs; values = values }) in
        and_then_assoc (emit_all io own out) (walk_list (visitor name) shown)
          (emit_all io (all_lines lines rest))
        ∙ ap (and_then (emit_all io own out)) (fun_ext (walk_list-emit_all name shown rest))
        ∙ sym (emit_all-append io own (all_lines lines (named name shown rest)) out)

    -- A walk writes the lines of the series in their order, up to the first one that fails.
    pub walk_nodes-emit_all :
        (nodes : Assoc (Node F)) (out : Out W)
        → walk_nodes visitor nodes out ≡ emit_all io (all_lines lines (all_series nodes)) out
    unfolding walk_nodes emit_all
    walk_nodes-emit_all [] out = refl
    walk_nodes-emit_all ((name, n) ∷ nodes) out =
        ap (λ r. and_then r (walk_nodes visitor nodes)) (walk-walk_list (visitor name) n out)
        ∙ ap (and_then (walk_list (visitor name) (entries [] n []) out))
            (fun_ext (walk_nodes-emit_all nodes))
        ∙ walk_list-emit_all name (entries [] n []) (all_series nodes) out
