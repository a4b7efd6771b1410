-- ===== src/Sd/InstanceCache/Isolation.antt =====
-- What receivers can do to the state of sd/internal/instance/cache.go.
use yoroi.Prelude.{
  ℕ, zero, suc, ◌+◌, ◌≤◌, ◌≡◌, refl, sym, ap, ◌∙◌, String, Option, none, some, List, [], ◌∷◌, ◌++◌,
  length, length-append, sort, arith,
}
use yoroi.Sd.Event.{Error}
use yoroi.Sd.InstanceCache.{
  Heap, Sent, Cache, new_cache, send, contents, state, register, deregister, Step, updates, reads,
  registers, deregisters, writes, add_channel, slice_at, write_at, step, run,
}
use yoroi.Sd.InstanceCache.Arrays.{
  cells_added, cells_elsewhere, length-set_cells, IsOther, IsSafe, IsIsolated, grow, replace,
  forget, send-IsKept, grow-IsMade,
}
use yoroi.Sd.InstanceCache.Updates.{View, seen, view, sorted, pair_path, update_lem}

-- What a step leaves in the cache: the last event, sorted.
abbrev pub expected : View → Step → View
expected v (updates xs e) = seen (sorted xs) e
expected v reads = v
expected v (registers ch) = v
expected v (deregisters ch) = v
expected v (writes i xs) = v

abbrev pub expected_run : View → List Step → View
expected_run v [] = v
expected_run v (s ∷ ss) = expected_run (expected v s) ss

updates_lem :
    (c : Cache) (xs : Option (List String)) (e : Option Error)
    → IsIsolated c
    → IsIsolated (step c (updates xs e)) × (view (step c (updates xs e)) ≡ seen (sorted xs) e)
unfolding step
updates_lem c none e i =
    update_lem c (record { instances = none; err = e }) tt
      (forget (length c.heap) c.state.instances c.sent i.others) i.others i.own
updates_lem c (some xs) e i =
    let h = c.heap ++ xs ∷ [] in
    let l : length h ≡ length c.heap + 1 = length-append c.heap (xs ∷ []) in
    let le : length c.heap ≤ length h = omega (arith, l) in
    let k =
      update_lem (record c { heap = h }) (record { instances = some (length c.heap); err = e })
        (omega (arith, l))
        (replace (length c.heap) (length h) c.state.instances c.sent (omega (arith, l)) i.others)
        (grow (length c.heap) (length h) c.state.instances c.sent le i.others)
        (grow-IsMade c.state.instances le i.own) in
    (k.0, k.1 ∙ ap (λ a. seen (some (sort a)) e) (cells_added c.heap xs))

-- Sending the state to one receiver.
send_lem :
    (c : Cache) (ch : Option ℕ) (reg' : List ℕ)
    → IsIsolated c
    → IsIsolated (record c {
      heap = (send ch c.state (c.heap, c.sent)).0;
      reg = reg';
      sent = (send ch c.state (c.heap, c.sent)).1;
    })
      × (contents (send ch c.state (c.heap, c.sent)).0 c.state.instances
          ≡ contents c.heap c.state.instances)
send_lem c ch reg' i =
    let k = send-IsKept ch c.state.instances c.state.err c.heap c.sent i.own i.others in
    (record { own = grow-IsMade c.state.instances k.grown i.own; others = k.safe }, k.same)

slice_at-IsOther :
    (n : ℕ) (own : Option ℕ) (xs : List Sent) (i : ℕ)
    → IsSafe n own xs
    → IsOther n own (slice_at xs i)
slice_at-IsOther n own [] i h = tt
slice_at-IsOther n own (x ∷ xs) zero h = h.0
slice_at-IsOther n own (x ∷ xs) (suc i) h = slice_at-IsOther n own xs i h.1

contents-write_at :
    (h : Heap) (own o : Option ℕ) (xs : List String)
    → IsOther (length h) own o
    → contents (write_at o xs h) own ≡ contents h own
contents-write_at h own none xs k = refl
contents-write_at h none (some b) xs k = refl
contents-write_at h (some a) (some b) xs k =
    ap some (cells_elsewhere h b a xs (λ e. k.1 (ap some (sym e))))

length-write_at : (h : Heap) (o : Option ℕ) (xs : List String) → length (write_at o xs h) ≡ length h
length-write_at h none xs = refl
length-write_at h (some b) xs = length-set_cells h b xs

writes_lem :
    (c : Cache) (i : ℕ) (xs : List String)
    → IsIsolated c
    → IsIsolated (step c (writes i xs)) × (view (step c (writes i xs)) ≡ view c)
unfolding step
writes_lem c i xs iso =
    let o = slice_at c.sent i in
    let l = length-write_at c.heap o xs in
    let le : length c.heap ≤ length (write_at o xs c.heap) = omega (arith, l) in
    (
      record {
        own = grow-IsMade c.state.instances le iso.own;
        others =
            grow (length c.heap) (length (write_at o xs c.heap)) c.state.instances c.sent le
              iso.others;
      },
      pair_path
          (contents-write_at c.heap c.state.instances o xs
            (slice_at-IsOther (length c.heap) c.state.instances c.sent i iso.others))
          refl,
    )

pub view-step :
    (c : Cache) (s : Step)
    → IsIsolated c
    → IsIsolated (step c s) × (view (step c s) ≡ expected (view c) s)
unfolding step state register deregister
view-step c (updates xs e) i = updates_lem c xs e i
view-step c reads i = let k = send_lem c none c.reg i in (k.0, pair_path k.1 refl)
view-step c (registers ch) i =
    let k = send_lem c (some ch) (add_channel ch c.reg) i in (k.0, pair_path k.1 refl)
view-step c (deregisters ch) i = (record { own = i.own; others = i.others }, refl)
view-step c (writes i xs) iso = writes_lem c i xs iso

view_from : (c : Cache) (ss : List Step) → IsIsolated c → view (run c ss) ≡ expected_run (view c) ss
unfolding run
view_from c [] i = refl
view_from c (s ∷ ss) i =
    let k = view-step c s i in view_from (step c s) ss k.0 ∙ ap (λ v. expected_run v ss) k.1

-- After any steps, the cache holds the last event with its instances sorted, or no instances and no
-- error before the first; whatever receivers write to the slices that they got changes nothing.
pub view-run :
    (h : Heap) (ss : List Step) → view (run (new_cache h) ss) ≡ expected_run (seen none none) ss
unfolding new_cache
view-run h ss = view_from (new_cache h) ss (record { own = tt; others = tt })
