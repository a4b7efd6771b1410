-- ===== src/Metrics/Space/Walks.antt =====
-- What `Walk` of metrics/internal/lv/space.go shows to its callback.
use yoroi.Prelude.{fun_ext, String, ◌≡◌, refl, ap, ◌∙◌, sym, List, [], ◌∷◌, ◌++◌, Bool, true, false}
use yoroi.Metrics.Space.{
  Node, node, Children, nil, cons, Visitor, visit, and_then, walk, walk_children,
}

abbrev pub Shown {ℓ} : Type ℓ → Type ℓ
Shown F = List (List String × List F)

module _ {ℓ} {F : Type ℓ} where
  abbrev pub non_empty : List String → List F → Shown F → Shown F
  non_empty lvs [] rest = rest
  non_empty lvs (x ∷ xs) rest = (lvs, x ∷ xs) ∷ rest

  -- The series that are not empty, parents first.
  unfoldable mutual
    pub entries : List String → Node F → Shown F → Shown F
    entries lvs (node observations children) rest =
        non_empty lvs observations (entries_below lvs children rest)

    pub entries_below : List String → Children F → Shown F → Shown F
    entries_below lvs nil rest = rest
    entries_below lvs (cons l v n more) rest =
        entries (lvs ++ l ∷ v ∷ []) n (entries_below lvs more rest)

module _ {ℓ} {S : Type ℓ} where
  pub and_then_assoc :
      (r : S × Bool) (f g : S → S × Bool)
      → and_then (and_then r f) g ≡ and_then r (λ s. and_then (f s) g)
  and_then_assoc (s, true) f g = refl
  and_then_assoc (s, false) f g = refl

module _ {ℓ} {S F : Type ℓ} (fn : Visitor S F) where
  -- The callback over a list, up to the first time that it says to stop.
  unfoldable pub walk_list : Shown F → S → S × Bool
  walk_list [] s = (s, true)
  walk_list ((lvs, o) ∷ rest) s = and_then (fn lvs o s) (walk_list rest)

  walk_list-non_empty :
      (lvs : List String) (o : List F) (rest : Shown F) (s : S)
      → walk_list (non_empty lvs o rest) s ≡ and_then (visit fn lvs o s) (walk_list rest)
  unfolding walk_list
  walk_list-non_empty lvs [] rest s = refl
  walk_list-non_empty lvs (x ∷ xs) rest s = refl

  mutual
    unfolding walk walk_children entries entries_below walk_list

    walk-entries :
        (lvs : List String) (n : Node F) (rest : Shown F) (s : S)
        → walk_list (entries lvs n rest) s ≡ and_then (walk fn lvs n s) (walk_list rest)
    walk-entries lvs (node o cs) rest s =
        walk_list-non_empty lvs o (entries_below lvs cs rest) s
        ∙ ap (and_then (visit fn lvs o s)) (fun_ext (walk_children-entries lvs cs rest))
        ∙ sym (and_then_assoc (visit fn lvs o s) (walk_children fn lvs cs) (walk_list rest))

    walk_children-entries :
        (lvs : List String) (cs : Children F) (rest : Shown F) (s : S)
        → walk_list (entries_below lvs cs rest) s
          ≡ and_then (walk_children fn lvs cs s) (walk_list rest)
    walk_children-entries lvs nil rest s = refl
    walk_children-entries lvs (cons l v n more) rest s =
        walk-entries (lvs ++ l ∷ v ∷ []) n (entries_below lvs more rest) s
        ∙ ap (and_then (walk fn (lvs ++ l ∷ v ∷ []) n s))
            (fun_ext (walk_children-entries lvs more rest))
        ∙ sym (
            and_then_assoc (walk fn (lvs ++ l ∷ v ∷ []) n s) (walk_children fn lvs more)
              (walk_list rest))

  and_then-true : (r : S × Bool) → and_then r (λ s. (s, true)) ≡ r
  and_then-true (s, true) = refl
  and_then-true (s, false) = refl

  -- `walk` hands its callback the series that are not empty, parents first, with their label values
  -- and observations, up to the first time that the callback says to stop.
  pub walk-walk_list : (n : Node F) (s : S) → walk fn [] n s ≡ walk_list (entries [] n []) s
  unfolding walk_list
  walk-walk_list n s = sym (walk-entries [] n [] s ∙ and_then-true (walk fn [] n s))
