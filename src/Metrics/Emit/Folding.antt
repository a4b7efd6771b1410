-- ===== src/Metrics/Emit/Folding.antt =====
-- The callback of a `Walk` over all series of a space, as a loop over a list.
use yoroi.Prelude.{fun_ext, ◌≡◌, refl, ap, ◌∙◌, String, List, [], ◌∷◌, Assoc, Bool, true}
use yoroi.Metrics.Space.{Node, Visitor, and_then, walk_nodes}
use yoroi.Metrics.Space.Walks.{Shown, entries, walk_list, and_then_assoc, walk-walk_list}
use yoroi.Metrics.Emit.Walking.{Series, named, all_series}

module _ {ℓ} {S F : Type ℓ} (fn : String → Visitor S F) where
  unfoldable pub fold_series : List (Series F) → S → S × Bool
  fold_series [] s = (s, true)
  fold_series (x ∷ xs) s = and_then (fn x.name x.lvs x.values s) (fold_series xs)

  walk_list-fold_series :
      (name : String) (shown : Shown F) (rest : List (Series F)) (s : S)
      → and_then (walk_list (fn name) shown s) (fold_series rest)
        ≡ fold_series (named name shown rest) s
  unfolding walk_list fold_series
  walk_list-fold_series name [] rest s = refl
  walk_list-fold_series name ((lvs, values) ∷ shown) rest s =
      and_then_assoc (fn name lvs values s) (walk_list (fn name) shown) (fold_series rest)
      ∙ ap (and_then (fn name lvs values s)) (fun_ext (walk_list-fold_series name shown rest))

  -- A walk calls back for the series in their order, up to the first time that it is told to stop.
  pub walk_nodes-fold_series :
      (nodes : Assoc (Node F)) (s : S) → walk_nodes fn nodes s ≡ fold_series (all_series nodes) s
  unfolding walk_nodes fold_series
  walk_nodes-fold_series [] s = refl
  walk_nodes-fold_series ((name, n) ∷ nodes) s =
      ap (λ r. and_then r (walk_nodes fn nodes)) (walk-walk_list (fn name) n s)
      ∙ ap (and_then (walk_list (fn name) (entries [] n []) s))
          (fun_ext (walk_nodes-fold_series nodes))
      ∙ walk_list-fold_series name (entries [] n []) (all_series nodes) s
