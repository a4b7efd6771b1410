-- ===== src/Sd/InstanceCache/Arrays.antt =====
-- Which arrays the slices sent by sd/internal/instance/cache.go are made of.
use yoroi.Prelude.{
  ℕ, zero, suc, ◌+◌, ◌≤◌, ◌<◌, ◌≡◌, ◌≢◌, refl, ap, ◌∙◌, String, Option, none, some, List, [], ◌∷◌,
  ◌++◌, length, length-append, arith,
}
use yoroi.Sd.Event.{Error}
use yoroi.Sd.InstanceCache.{
  Heap, cells, set_cells, Notice, Sent, Cache, copy_event, send, broadcast, contents,
}

pub cells_kept :
    (h : Heap) (n : ℕ) (a : List String) → n < length h → cells (h ++ a ∷ []) n ≡ cells h n
cells_kept [] n a l = absurd (omega arith)
cells_kept (b ∷ h) zero a l = refl
cells_kept (b ∷ h) (suc n) a l = cells_kept h n a (omega arith)

pub cells_added : (h : Heap) (a : List String) → cells (h ++ a ∷ []) (length h) ≡ a
cells_added [] a = refl
cells_added (b ∷ h) a = cells_added h a

pub cells_written :
    (h : Heap) (n : ℕ) (a : List String) → n < length h → cells (set_cells h n a) n ≡ a
cells_written [] n a l = absurd (omega arith)
cells_written (b ∷ h) zero a l = refl
cells_written (b ∷ h) (suc n) a l = cells_written h n a (omega arith)

pub cells_elsewhere :
    (h : Heap) (n m : ℕ) (a : List String) → n ≢ m → cells (set_cells h n a) m ≡ cells h m
cells_elsewhere [] n m a d = refl
cells_elsewhere (b ∷ h) zero zero a d = absurd (d refl)
cells_elsewhere (b ∷ h) zero (suc m) a d = refl
cells_elsewhere (b ∷ h) (suc n) zero a d = refl
cells_elsewhere (b ∷ h) (suc n) (suc m) a d = cells_elsewhere h n m a (λ e. d (ap suc e))

pub length-set_cells : (h : Heap) (n : ℕ) (a : List String) → length (set_cells h n a) ≡ length h
length-set_cells [] n a = refl
length-set_cells (b ∷ h) zero a = refl
length-set_cells (b ∷ h) (suc n) a = ap suc (length-set_cells h n a)

-- An array that has been made, and is not the given one.
abbrev pub IsOther : ℕ → Option ℕ → Option ℕ → Type 0
IsOther n own none = Unit
IsOther n own (some b) = (b < n) × (own ≢ some b)

-- All slices that were sent are made of other arrays than the given one.
abbrev pub IsSafe : ℕ → Option ℕ → List Sent → Type 0
IsSafe n own [] = Unit
IsSafe n own (x ∷ xs) = IsOther n own x.notice.instances × IsSafe n own xs

abbrev pub IsMade : ℕ → Option ℕ → Type 0
IsMade n none = Unit
IsMade n (some a) = a < n

pub record IsIsolated (c : Cache) : Type 0 where
  pub own : IsMade (length c.heap) c.state.instances
  pub others : IsSafe (length c.heap) c.state.instances c.sent

grow_one : (n m : ℕ) (own o : Option ℕ) → n ≤ m → IsOther n own o → IsOther m own o
grow_one n m own none l h = h
grow_one n m own (some b) l h = (omega (arith, h.0), h.1)

pub grow : (n m : ℕ) (own : Option ℕ) (xs : List Sent) → n ≤ m → IsSafe n own xs → IsSafe m own xs
grow n m own [] l h = h
grow n m own (x ∷ xs) l h = (grow_one n m own x.notice.instances l h.0, grow n m own xs l h.1)

-- The array of an update is apart from those that were there before.
replace_one : (n m : ℕ) (own o : Option ℕ) → n < m → IsOther n own o → IsOther m (some n) o
replace_one n m own none l h = h
replace_one n m own (some b) l h = (omega (arith, h.0), ground (arith, h.0))

pub replace :
    (n m : ℕ) (own : Option ℕ) (xs : List Sent) → n < m → IsSafe n own xs → IsSafe m (some n) xs
replace n m own [] l h = h
replace n m own (x ∷ xs) l h =
    (replace_one n m own x.notice.instances l h.0, replace n m own xs l h.1)

none_one : (n : ℕ) (own o : Option ℕ) → IsOther n own o → IsOther n none o
none_one n own none h = h
none_one n own (some b) h = (h.0, ground arith)

pub forget : (n : ℕ) (own : Option ℕ) (xs : List Sent) → IsSafe n own xs → IsSafe n none xs
forget n own [] h = h
forget n own (x ∷ xs) h = (none_one n own x.notice.instances h.0, forget n own xs h.1)

-- What sending leaves as it was.
pub record IsKept (h h' : Heap) (own : Option ℕ) (sent' : List Sent) : Type 0 where
  pub grown : length h ≤ length h'
  pub same : contents h' own ≡ contents h own
  pub safe : IsSafe (length h') own sent'

pub send-IsKept :
    (ch : Option ℕ) (o : Option ℕ) (e : Option Error) (h : Heap) (sent : List Sent)
    → IsMade (length h) o
    → IsSafe (length h) o sent
    → IsKept h
        (send ch (record { instances = o; err = e }) (h, sent)).0
        o
        (send ch (record { instances = o; err = e }) (h, sent)).1
unfolding send copy_event
send-IsKept ch none e h sent made safe = record {
  grown = omega arith;
  same = refl;
  safe = (tt, safe);
}
send-IsKept ch (some a) e h sent made safe =
    let l : length (h ++ cells h a ∷ []) ≡ length h + 1 = length-append h (cells h a ∷ []) in
    record {
      grown = omega (arith, l);
      same = ap some (cells_kept h a (cells h a) made);
      safe = (
        (omega (arith, l), ground (arith, made)),
        grow (length h) (length (h ++ cells h a ∷ [])) (some a) sent (omega (arith, l)) safe,
      );
    }

pub grow-IsMade : {h h' : ℕ} (o : Option ℕ) → h ≤ h' → IsMade h o → IsMade h' o
grow-IsMade none l m = m
grow-IsMade (some a) l m = omega (arith, m)

-- Sending to all channels, one after another.
pub broadcast-IsKept :
    (chs : List ℕ) (n : Notice) (h : Heap) (sent : List Sent)
    → IsMade (length h) n.instances
    → IsSafe (length h) n.instances sent
    → IsKept h (broadcast chs n (h, sent)).0 n.instances (broadcast chs n (h, sent)).1
unfolding broadcast
broadcast-IsKept [] n h sent made safe = record { grown = omega arith; same = refl; safe = safe }
broadcast-IsKept (ch ∷ chs) n h sent made safe =
    let out = send (some ch) n (h, sent) in
    let k = send-IsKept (some ch) n.instances n.err h sent made safe in
    let k' = broadcast-IsKept chs n out.0 out.1 (grow-IsMade n.instances k.grown made) k.safe in
    record { grown = omega (arith, k.grown, k'.grown); same = k'.same ∙ k.same; safe = k'.safe }
