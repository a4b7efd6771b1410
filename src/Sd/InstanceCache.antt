-- ===== src/Sd/InstanceCache.antt =====
-- sd/internal/instance/cache.go. A slice of instances is known by the number of its array in a heap,
-- since copies matter here. What is sent, and what `State` returns, is kept, the last one first.
pub mod Arrays
pub mod Updates
pub mod Isolation
mod Tests
use yoroi.Prelude.{
  ℕ, zero, suc, String, Option, none, some, List, [], ◌∷◌, ◌++◌, Bool, true, false, ◌&&◌, str_eq,
  length, sort, ◌==◌, if◌then◌else◌,
}
use yoroi.Sd.Event.{Error}

abbrev pub Heap : Type 0
Heap = List (List String)

abbrev pub cells : Heap → ℕ → List String
cells [] n = []
cells (a ∷ h) zero = a
cells (a ∷ h) (suc n) = cells h n

abbrev pub set_cells : Heap → ℕ → List String → Heap
set_cells [] n a = []
set_cells (b ∷ h) zero a = a ∷ h
set_cells (b ∷ h) (suc n) a = b ∷ set_cells h n a

-- sd.Event, with its slice by reference.
pub record Notice : Type 0 where
  pub instances : Option ℕ
  pub err : Option Error

pub record Sent : Type 0 where
  -- none is a caller of `State`
  pub channel : Option ℕ
  pub notice : Notice

pub record Cache : Type 0 where
  pub heap : Heap
  pub state : Notice
  -- the registered channels
  pub reg : List ℕ
  pub sent : List Sent

unfoldable pub new_cache : Heap → Cache
new_cache heap = record {
  heap = heap;
  state = record { instances = none; err = none };
  reg = [];
  sent = [];
}

unfoldable pub copy_event : Heap → Notice → Heap × Notice
copy_event h n = elim n.instances [
  | none ↦ (h, n)
  | some a ↦ (h ++ cells h a ∷ [], record n { instances = some (length h) })
]

-- Sends a copy.
unfoldable pub send : Option ℕ → Notice → Heap × List Sent → Heap × List Sent
send channel n (h, sent) =
    let (h', copied) = copy_event h n in (h', record { channel = channel; notice = copied } ∷ sent)

unfoldable pub broadcast : List ℕ → Notice → Heap × List Sent → Heap × List Sent
broadcast [] n out = out
broadcast (ch ∷ chs) n out = broadcast chs n (send (some ch) n out)

abbrev pub sort_at : Option ℕ → Heap → Heap
sort_at none h = h
sort_at (some a) h = set_cells h a (sort (cells h a))

abbrev pub contents : Heap → Option ℕ → Option (List String)
contents h none = none
contents h (some a) = some (cells h a)

abbrev pub same_strings : List String → List String → Bool
same_strings [] [] = true
same_strings [] (y ∷ ys) = false
same_strings (x ∷ xs) [] = false
same_strings (x ∷ xs) (y ∷ ys) = str_eq x y && same_strings xs ys

abbrev pub same_instances : Option (List String) → Option (List String) → Bool
same_instances none none = true
same_instances none (some ys) = false
same_instances (some xs) none = false
same_instances (some xs) (some ys) = same_strings xs ys

abbrev pub same_error : Option Error → Option Error → Bool
same_error none none = true
same_error none (some f) = false
same_error (some e) none = false
same_error (some e) (some f) = str_eq e f

-- reflect.DeepEqual on events; the nil slice differs from the empty one.
abbrev pub deep_equal : Heap → Notice → Notice → Bool
deep_equal h n m =
    same_instances (contents h n.instances) (contents h m.instances) && same_error n.err m.err

-- Where the event is new.
abbrev pub announced : Cache → Notice → Cache
announced c event =
    let (h, sent') = broadcast c.reg event (sort_at event.instances c.heap, c.sent) in
    record c { heap = h; state = event; sent = sent' }

unfoldable pub update : Cache → Notice → Cache
update c event =
    let h = sort_at event.instances c.heap in
    if deep_equal h c.state event then record c { heap = h } else announced c event

unfoldable pub state : Cache → Cache
state c = let (h, sent') = send none c.state (c.heap, c.sent) in record c { heap = h; sent = sent' }

abbrev pub add_channel : ℕ → List ℕ → List ℕ
add_channel ch [] = ch ∷ []
add_channel ch (x ∷ xs) = if x == ch then x ∷ xs else x ∷ add_channel ch xs

abbrev pub remove_channel : ℕ → List ℕ → List ℕ
remove_channel ch [] = []
remove_channel ch (x ∷ xs) = if x == ch then xs else x ∷ remove_channel ch xs

unfoldable pub register : Cache → ℕ → Cache
register c ch =
    let (h, sent') = send (some ch) c.state (c.heap, c.sent) in
    record c { reg = add_channel ch c.reg; heap = h; sent = sent' }

unfoldable pub deregister : Cache → ℕ → Cache
deregister c ch = record c { reg = remove_channel ch c.reg }

-- What happens to a cache: an instancer updates it with a slice that it has made for this and does
-- not touch again, and receivers write to the slices of what was sent, by its place in `sent`.
pub data Step : Type 0 where
  updates : Option (List String) → Option Error → Step
  reads : Step
  registers : ℕ → Step
  deregisters : ℕ → Step
  writes : ℕ → List String → Step

abbrev pub make : Option (List String) → Heap → Heap × Option ℕ
make none h = (h, none)
make (some xs) h = (h ++ xs ∷ [], some (length h))

abbrev pub slice_at : List Sent → ℕ → Option ℕ
slice_at [] i = none
slice_at (x ∷ xs) zero = x.notice.instances
slice_at (x ∷ xs) (suc i) = slice_at xs i

abbrev pub write_at : Option ℕ → List String → Heap → Heap
write_at none xs h = h
write_at (some a) xs h = set_cells h a xs

unfoldable pub step : Cache → Step → Cache
step c (updates xs e) =
    let (h, instances') = make xs c.heap in
    update (record c { heap = h }) (record { instances = instances'; err = e })
step c reads = state c
step c (registers ch) = register c ch
step c (deregisters ch) = deregister c ch
step c (writes i xs) = record c { heap = write_at (slice_at c.sent i) xs c.heap }

unfoldable pub run : Cache → List Step → Cache
run c [] = c
run c (s ∷ ss) = run (step c s) ss
