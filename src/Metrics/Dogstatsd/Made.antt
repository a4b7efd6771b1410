-- ===== src/Metrics/Dogstatsd/Made.antt =====
-- The lines of metrics/dogstatsd/dogstatsd.go can be made of label values in pairs.
use yoroi.Prelude.{◌≡◌, refl, ap, String, Option, none, some, List, [], ◌∷◌, ◌++◌, Assoc}
use yoroi.Metrics.Space.{Node, node, Children, nil, cons}
use yoroi.Metrics.Space.Series.{IsPaired}
use yoroi.Metrics.Space.Walks.{Shown, non_empty, entries, entries_below}
use yoroi.Metrics.Emit.{Floats}
use yoroi.Metrics.Emit.Walking.{Series, named, all_series, all_lines}
use yoroi.Metrics.Dogstatsd.{Layout, Naming}
use yoroi.Metrics.Dogstatsd.Gauges.{append-IsPaired}
use yoroi.Metrics.Dogstatsd.Lines.{pairs, join_comma, marked, tags_of, with_tags, line, value_lines}
use yoroi.Metrics.Emit.Feeding.{IsMadeOf, append-IsMadeOf}

pairs_made :
    (mark : String) (lvs : List String) → IsPaired lvs → (t : String) × (pairs mark lvs ≡ some t)
pairs_made mark [] h = ("", refl)
pairs_made mark (l ∷ []) h = absurd h
pairs_made mark (l ∷ v ∷ []) h = (_, refl)
pairs_made mark (l ∷ v ∷ x ∷ rest) h =
    let (t, e) = pairs_made mark (x ∷ rest) h in (_, ap (join_comma _) e)

tags_made :
    (layout : Layout) (lvs : List String)
    → IsPaired lvs
    → (t : String) × (tags_of layout lvs ≡ some t)
tags_made layout [] h = ("", refl)
tags_made layout (x ∷ xs) h =
    let (t, e) = pairs_made layout.pair_mark (x ∷ xs) h in (_, ap (marked layout.tag_mark) e)

with_tags-IsMadeOf :
    (layout : Layout) (head tail : String) (o : Option String) (t : String)
    (rest : List (Option String))
    → o ≡ some t
    → IsMadeOf rest
    → IsMadeOf (with_tags layout head tail o ∷ rest)
with_tags-IsMadeOf layout head tail none t rest e h = absurd (cc e)
with_tags-IsMadeOf layout head tail (some t') t rest e h = h

abbrev pub IsFull {ℓ} : {F : Type ℓ} → List F → Type 0
IsFull [] = ⊥
IsFull (x ∷ xs) = Unit

-- The label values of all series that are shown come in pairs, and none is empty.
abbrev pub IsShownPaired {ℓ} : {F : Type ℓ} → Shown F → Type 0
IsShownPaired [] = Unit
IsShownPaired ((lvs, o) ∷ rest) = IsPaired lvs × IsFull o × IsShownPaired rest

module _ {ℓ} {F : Type ℓ} where
  non_empty-IsShownPaired :
      (lvs : List String) (o : List F) (rest : Shown F)
      → IsPaired lvs
      → IsShownPaired rest
      → IsShownPaired (non_empty lvs o rest)
  non_empty-IsShownPaired lvs [] rest h k = k
  non_empty-IsShownPaired lvs (x ∷ xs) rest h k = (h, tt, k)

  mutual
    unfolding entries entries_below

    entries-IsShownPaired :
        (lvs : List String) (n : Node F) (rest : Shown F)
        → IsPaired lvs
        → IsShownPaired rest
        → IsShownPaired (entries lvs n rest)
    entries-IsShownPaired lvs (node o cs) rest h k =
        non_empty-IsShownPaired lvs o (entries_below lvs cs rest) h
          (entries_below-IsShownPaired lvs cs rest h k)

    entries_below-IsShownPaired :
        (lvs : List String) (cs : Children F) (rest : Shown F)
        → IsPaired lvs
        → IsShownPaired rest
        → IsShownPaired (entries_below lvs cs rest)
    entries_below-IsShownPaired lvs nil rest h k = k
    entries_below-IsShownPaired lvs (cons l v n more) rest h k =
        entries-IsShownPaired (lvs ++ l ∷ v ∷ []) n (entries_below lvs more rest)
          (append-IsPaired lvs (l ∷ v ∷ []) h tt) (entries_below-IsShownPaired lvs more rest h k)

  -- Lines for all series of a space can be made, if those for paired label values can.
  module _ (lines : Series F → List (Option String)) where
    named-IsMadeOf :
        ((x : Series F) → IsPaired x.lvs → IsFull x.values → IsMadeOf (lines x))
        → (name : String) (shown : Shown F) (rest : List (Series F)) → IsShownPaired shown
        → IsMadeOf (all_lines lines rest)
        → IsMadeOf (all_lines lines (named name shown rest))
    named-IsMadeOf made name [] rest h k = k
    named-IsMadeOf made name ((lvs, o) ∷ shown) rest h k =
        append-IsMadeOf (lines (record { name = name; lvs = lvs; values = o }))
          (all_lines lines (named name shown rest))
          (made (record { name = name; lvs = lvs; values = o }) h.0 h.1)
          (named-IsMadeOf made name shown rest h.2 k)

    pub all_full_series-IsMadeOf :
        ((x : Series F) → IsPaired x.lvs → IsFull x.values → IsMadeOf (lines x))
        → (nodes : Assoc (Node F)) → IsMadeOf (all_lines lines (all_series nodes))
    all_full_series-IsMadeOf made [] = tt
    all_full_series-IsMadeOf made ((name, n) ∷ nodes) =
        named-IsMadeOf made name (entries [] n []) (all_series nodes)
          (entries-IsShownPaired [] n [] tt tt) (all_full_series-IsMadeOf made nodes)

    pub all_series-IsMadeOf :
        ((x : Series F) → IsPaired x.lvs → IsMadeOf (lines x))
        → (nodes : Assoc (Node F)) → IsMadeOf (all_lines lines (all_series nodes))
    all_series-IsMadeOf made = all_full_series-IsMadeOf (λ x h full. made x h)

  module _ (layout : Layout) (d : Naming F) (own : IsPaired d.lvs) where
    pub line-IsMadeOf :
        (name : String) (lvs : List String) (value kind rate : String) (rest : List (Option String))
        → IsPaired lvs
        → IsMadeOf rest
        → IsMadeOf (line layout d name lvs value kind rate ∷ rest)
    line-IsMadeOf name lvs value kind rate rest h k =
        let (t, e) = tags_made layout (d.lvs ++ lvs) (append-IsPaired d.lvs lvs own h) in
        with_tags-IsMadeOf layout _ _ (tags_of layout (d.lvs ++ lvs)) t rest e k

    pub value_lines-IsMadeOf :
        (fl : Floats F) (kind name : String) (lvs : List String) (values : List F)
        → IsPaired lvs
        → IsMadeOf (value_lines fl layout d kind name lvs values)
    value_lines-IsMadeOf fl kind name lvs [] h = tt
    value_lines-IsMadeOf fl kind name lvs (x ∷ xs) h =
        line-IsMadeOf name lvs _ kind _ (value_lines fl layout d kind name lvs xs) h
          (value_lines-IsMadeOf fl kind name lvs xs h)
