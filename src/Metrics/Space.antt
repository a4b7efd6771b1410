-- ===== src/Metrics/Space.antt =====
-- metrics/internal/lv/space.go: the tree of time series. `F` stands for float64 and `plus` for its
-- addition. Map iteration is in the order of the children's list; locks are left out.
pub mod Series
pub mod Walks
use yoroi.Prelude.{
  ℕ, String, Option, none, some, List, [], ◌∷◌, ◌++◌, Bool, true, false, ◌&&◌, str_eq, not,
  if◌then◌else◌, Assoc, lookup, insert,
}

-- `node` and its map of children, keyed by pairs of a label and a value.
mutual
  pub data Node {ℓ} (F : Type ℓ) : Type ℓ where
    node : List F → Children F → Node F

  pub data Children {ℓ} (F : Type ℓ) : Type ℓ where
    nil : Children F
    cons : String → String → Node F → Children F → Children F

abbrev pub same_pair : String → String → String → String → Bool
same_pair l v l' v' = str_eq l l' && str_eq v v'

module _ {ℓ} {F : Type ℓ} where
  abbrev pub empty_node : Node F
  empty_node = node [] nil

  -- Puts a changed child back; `none` is a panic below.
  abbrev pub put_first : String → String → Children F → Option (Node F) → Option (Children F)
  put_first l v rest none = none
  put_first l v rest (some n) = some (cons l v n rest)

  abbrev pub put_behind : String → String → Node F → Option (Children F) → Option (Children F)
  put_behind l v n none = none
  put_behind l v n (some rest) = some (cons l v n rest)

  -- Applies a change to the child for a pair, made first if it is missing.
  pub at_child : (Node F → Option (Node F)) → String → String → Children F → Option (Children F)
  at_child change l v nil = put_first l v nil (change empty_node)
  at_child change l v (cons l' v' n rest) =
      let behind = at_child change l v rest in
      if same_pair l' v' l v then put_first l' v' rest (change n) else put_behind l' v' n behind

  abbrev pub with_children : List F → Option (Children F) → Option (Node F)
  with_children observations none = none
  with_children observations (some children) = some (node observations children)

  -- `observe` and `add` differ in what they append at the end of the path. An odd number of label
  -- values panics.
  pub descend : (List F → List F) → List String → Node F → Option (Node F)
  descend change [] (node observations children) = some (node (change observations) children)
  descend change (l ∷ []) n = none
  descend change (l ∷ v ∷ tail) (node observations children) =
      with_children observations (at_child (descend change tail) l v children)

  pub observe : Node F → List String → F → Option (Node F)
  unfolding descend
  observe n lvs value = descend (λ observations. observations ++ value ∷ []) lvs n

  abbrev pub last : List F → Option F
  last [] = none
  last (x ∷ []) = some x
  last (x ∷ y ∷ xs) = last (y ∷ xs)

  abbrev pub add_to : (F → F → F) → F → Option F → F
  add_to plus delta none = delta
  add_to plus delta (some x) = plus x delta

  pub add : (F → F → F) → Node F → List String → F → Option (Node F)
  unfolding descend
  add plus n lvs delta =
      descend (λ observations. observations ++ add_to plus delta (last observations) ∷ []) lvs n

  -- `nodeFor`, with what is then done to the node.
  abbrev pub or_new : Option (Node F) → Node F
  or_new none = empty_node
  or_new (some n) = n

  abbrev pub node_for : String → Assoc (Node F) → Node F
  node_for name nodes = or_new (lookup name nodes)

  abbrev pub store : String → Assoc (Node F) → Option (Node F) → Option (Assoc (Node F))
  store name nodes none = none
  store name nodes (some n) = some (insert name n nodes)

-- The maps of names to nodes; nil and empty maps are not told apart by any operation.
pub record Space {ℓ} (F : Type ℓ) : Type ℓ where
  pub nodes : Assoc (Node F)

module _ {ℓ} {F : Type ℓ} where
  unfoldable pub new_space : Space F
  new_space = record { nodes = [] }

  abbrev pub stored : Option (Assoc (Node F)) → Option (Space F)
  stored none = none
  stored (some nodes) = some (record { nodes = nodes })

  -- Space.Observe
  pub observe_in : Space F → String → List String → F → Option (Space F)
  observe_in s name lvs value =
      stored (store name s.nodes (observe (node_for name s.nodes) lvs value))

  -- Space.Add
  pub add_in : (F → F → F) → Space F → String → List String → F → Option (Space F)
  add_in plus s name lvs delta =
      stored (store name s.nodes (add plus (node_for name s.nodes) lvs delta))

  -- Space.Reset: the space that is left, and the one that is returned.
  unfoldable pub reset : Space F → Space F × Space F
  unfolding new_space
  reset s = (new_space, s)

-- The callback of `walk` changes a state and says whether to go on.
abbrev pub Visitor {ℓ} : Type ℓ → Type ℓ → Type ℓ
Visitor S F = List String → List F → S → S × Bool

abbrev pub and_then {ℓ} : {S : Type ℓ} → S × Bool → (S → S × Bool) → S × Bool
and_then (s, true) k = k s
and_then (s, false) k = (s, false)

module _ {ℓ} {S F : Type ℓ} (fn : Visitor S F) where
  abbrev pub visit : List String → List F → S → S × Bool
  visit lvs [] s = (s, true)
  visit lvs (x ∷ xs) s = fn lvs (x ∷ xs) s

  unfoldable mutual
    -- `node.walk`
    pub walk : List String → Node F → S → S × Bool
    walk lvs (node observations children) s =
        and_then (visit lvs observations s) (walk_children lvs children)

    pub walk_children : List String → Children F → S → S × Bool
    walk_children lvs nil s = (s, true)
    walk_children lvs (cons l v n rest) s =
        and_then (walk (lvs ++ l ∷ v ∷ []) n s) (walk_children lvs rest)

-- Space.Walk; the callback also gets the name.
module _ {ℓ} {S F : Type ℓ} (fn : String → Visitor S F) where
  unfoldable pub walk_nodes : Assoc (Node F) → S → S × Bool
  walk_nodes [] s = (s, true)
  walk_nodes ((name, n) ∷ rest) s = and_then (walk (fn name) [] n s) (walk_nodes rest)
