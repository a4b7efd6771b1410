-- ===== src/Sd/Watching.antt =====
-- The loop that the instancers of sd/etcd, sd/etcdv3, sd/eureka and sd/zk share: at each notification
-- they ask for the entries, and update their cache of instances with what they get. Receivers use the
-- cache in between.
pub mod Following
mod Tests
use yoroi.Prelude.{ℕ, String, Option, none, some, List, [], ◌∷◌, Bool, true, false, if◌then◌else◌}
use yoroi.Sd.Event.{Error}
use yoroi.Sd.InstanceCache as Instances
use yoroi.Sd.InstanceCache.{Heap, Cache, new_cache}

-- What asking for the entries returns; `none` is the nil slice.
pub data Entries : Type 0 where
  failed : Error → Entries
  found : Option (List String) → Entries

-- What receivers do: Register, Deregister, State, and writes to the slices that they got.
pub data Use : Type 0 where
  registers : ℕ → Use
  deregisters : ℕ → Use
  reads : Use
  writes : ℕ → List String → Use

pub data Event : Type 0 where
  notified : Entries → Event
  quits : Event
  used : Use → Event

pub record Instancer : Type 0 where
  pub cache : Cache
  pub returned : Bool

-- cache.Update with an event for the entries.
abbrev pub told : Entries → Instances.Step
told (failed err) = Instances.updates none (some err)
told (found instances) = Instances.updates instances none

abbrev pub use_step : Use → Instances.Step
use_step (registers ch) = Instances.registers ch
use_step (deregisters ch) = Instances.deregisters ch
use_step reads = Instances.reads
use_step (writes i xs) = Instances.writes i xs

unfoldable pub tell : Instancer → Entries → Instancer
tell s entries = record s { cache = Instances.step s.cache (told entries) }

unfoldable pub step : Instancer → Event → Instancer
unfolding tell
step s (notified entries) = if s.returned then s else tell s entries
step s quits = record s { returned = true }
step s (used u) = record s { cache = Instances.step s.cache (use_step u) }

unfoldable pub run : Instancer → List Event → Instancer
run s [] = s
run s (e ∷ es) = run (step s e) es

-- NewInstancer of etcd, etcdv3 and eureka, which tells the cache of an error as well.
unfoldable pub new_instancer : Heap → Entries → Instancer
unfolding tell
new_instancer h entries = tell (record { cache = new_cache h; returned = false }) entries

-- NewInstancer of zk, which gives up at an error.
abbrev pub started : Heap → Entries → Option Instancer
started h (failed err) = none
started h (found instances) = some (new_instancer h (found instances))

unfoldable pub new_or_fail : Heap → Option Error → Entries → Option Instancer
new_or_fail h (some err) entries = none
new_or_fail h none entries = started h entries
