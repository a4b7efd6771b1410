-- ===== src/Sd/InstanceCache/Updates.antt =====
-- What an update of sd/internal/instance/cache.go leaves in the cache.
use yoroi.Prelude.{
  ℕ, ◌≤◌, ◌≡◌, refl, sym, ap, ◌∙◌, subst, inl, inr, String, Option, none, some, List, [], ◌∷◌, Bool,
  true, false, ◌&&◌, eq_iff, length, sort, arith, Bool-cases, if◌then◌else◌,
}
use yoroi.Sd.Event.{Error}
use yoroi.Sd.InstanceCache.{
  Heap, cells, Notice, Sent, Cache, broadcast, sort_at, contents, same_strings, same_instances,
  same_error, deep_equal, announced, update,
}
use yoroi.Sd.InstanceCache.Arrays.{
  cells_written, length-set_cells, IsSafe, IsMade, IsIsolated, grow, grow-IsMade, broadcast-IsKept,
}

-- What the cache holds.
abbrev pub View : Type 0
View = Option (List String) × Option Error

abbrev pub seen : Option (List String) → Option Error → View
seen xs e = (xs, e)

abbrev pub view : Cache → View
view c = seen (contents c.heap c.state.instances) c.state.err

same_strings_lem : (xs ys : List String) → same_strings xs ys ≡ true → xs ≡ ys
same_strings_lem [] [] h = refl
same_strings_lem [] (y ∷ ys) h = cc
same_strings_lem (x ∷ xs) [] h = cc
same_strings_lem (x ∷ xs) (y ∷ ys) h = ground (arith, eq_iff x y, same_strings_lem xs ys)

same_instances_lem : (xs ys : Option (List String)) → same_instances xs ys ≡ true → xs ≡ ys
same_instances_lem none none h = refl
same_instances_lem none (some ys) h = cc
same_instances_lem (some xs) none h = cc
same_instances_lem (some xs) (some ys) h = ap some (same_strings_lem xs ys h)

same_error_lem : (e f : Option Error) → same_error e f ≡ true → e ≡ f
same_error_lem none none h = refl
same_error_lem none (some f) h = cc
same_error_lem (some e) none h = cc
same_error_lem (some e) (some f) h = ap some ((eq_iff e f).0 h)

abbrev pub sorted : Option (List String) → Option (List String)
sorted none = none
sorted (some xs) = some (sort xs)

length-sort_at : (o : Option ℕ) (h : Heap) → length (sort_at o h) ≡ length h
length-sort_at none h = refl
length-sort_at (some a) h = length-set_cells h a (sort (cells h a))

pub contents-sort_at :
    (o : Option ℕ) (h : Heap)
    → IsMade (length h) o
    → contents (sort_at o h) o ≡ sorted (contents h o)
contents-sort_at none h made = refl
contents-sort_at (some a) h made = ap some (cells_written h a (sort (cells h a)) made)

after-IsIsolated :
    (c : Cache) (h : Heap) (state' : Notice) (sent' : List Sent)
    → IsMade (length h) state'.instances
    → IsSafe (length h) state'.instances sent'
    → IsIsolated (record c { heap = h; state = state'; sent = sent' })
after-IsIsolated c h state' sent' m s = record { own = m; others = s }

and_true : (a b : Bool) → (a && b) ≡ true → (a ≡ true) × (b ≡ true)
and_true a b h = ground arith

pub pair_path :
    {xs ys : Option (List String)} {e f : Option Error} → xs ≡ ys → e ≡ f → seen xs e ≡ seen ys f
pair_path h k = cc

pub update_same :
    (c : Cache) (n : Notice)
    → deep_equal (sort_at n.instances c.heap) c.state n ≡ true
    → update c n ≡ record c { heap = sort_at n.instances c.heap }
unfolding update
update_same c n h =
    ap (λ b. if b then record c { heap = sort_at n.instances c.heap } else announced c n) h

pub update_differs :
    (c : Cache) (n : Notice)
    → deep_equal (sort_at n.instances c.heap) c.state n ≡ false
    → update c n ≡ announced c n
unfolding update
update_differs c n h =
    ap (λ b. if b then record c { heap = sort_at n.instances c.heap } else announced c n) h

-- An update with a slice that nobody else has.
pub update_lem :
    (c : Cache) (n : Notice)
    → IsMade (length c.heap) n.instances
    → IsSafe (length c.heap) n.instances c.sent
    → IsSafe (length c.heap) c.state.instances c.sent
    → IsMade (length c.heap) c.state.instances
    → IsIsolated (update c n)
      × (view (update c n) ≡ seen (sorted (contents c.heap n.instances)) n.err)
update_lem c n made fresh safe own =
    let h = sort_at n.instances c.heap in
    let target = seen (sorted (contents c.heap n.instances)) n.err in
    let l : length h ≡ length c.heap = length-sort_at n.instances c.heap in
    let le : length c.heap ≤ length h = omega (arith, l) in
    let by_sort = contents-sort_at n.instances c.heap made in
    elim (Bool-cases (deep_equal h c.state n)) [
      | inl same ↦
          let both = and_true _ _ same in
          let shown : view (record c { heap = h }) ≡ target =
            pair_path
              (same_instances_lem (contents h c.state.instances) (contents h n.instances) both.0
                ∙ by_sort)
              (same_error_lem c.state.err n.err both.1) in
          let iso =
            after-IsIsolated c h c.state c.sent (grow-IsMade c.state.instances le own)
              (grow (length c.heap) (length h) c.state.instances c.sent le safe) in
          subst (λ x. IsIsolated x × (view x ≡ target)) (sym (update_same c n same)) (iso, shown)
      | inr differ ↦
          let out = broadcast c.reg n (h, c.sent) in
          let k =
            broadcast-IsKept c.reg n h c.sent (grow-IsMade n.instances le made)
              (grow (length c.heap) (length h) n.instances c.sent le fresh) in
          let iso =
            after-IsIsolated c out.0 n out.1
              (grow-IsMade n.instances (omega (arith, le, k.grown)) made) k.safe in
          let shown = pair_path (k.same ∙ by_sort) refl in
          subst (λ x. IsIsolated x × (view x ≡ target)) (sym (update_differs c n differ))
            (iso, shown)
    ]
