-- ===== src/Sd/Watching/Following.antt =====
-- What the cache of an instancer holds.
use yoroi.Prelude.{
  ◌≡◌, refl, sym, subst, ◌∙◌, none, some, List, [], ◌∷◌, true, false, if◌then◌else◌,
}
use yoroi.Sd.InstanceCache as Instances
use yoroi.Sd.InstanceCache.{Heap, Cache, new_cache}
use yoroi.Sd.InstanceCache.Arrays.{IsIsolated}
use yoroi.Sd.InstanceCache.Updates.{View, seen, view, sorted}
use yoroi.Sd.InstanceCache.Isolation.{view-step}
use yoroi.Sd.Watching.{
  Entries, failed, found, Use, registers, deregisters, reads, writes, Event, notified, quits, used,
  Instancer, use_step, tell, step, run, new_instancer,
}

-- The instances of the entries sorted and no error, or the error and no instances.
abbrev pub shown : Entries → View
shown (failed err) = seen none (some err)
shown (found instances) = seen (sorted instances) none

-- The last entries before the instancer is stopped.
abbrev pub latest : Entries → List Event → Entries
latest entries [] = entries
latest entries (notified entries' ∷ es) = latest entries' es
latest entries (quits ∷ es) = entries
latest entries (used u ∷ es) = latest entries es

new_cache-IsIsolated : (h : Heap) → IsIsolated (new_cache h)
unfolding new_cache
new_cache-IsIsolated h = record { own = tt; others = tt }

record IsShowing (s : Instancer) (v : View) : Type 0 where
  isolated : IsIsolated s.cache
  shows : view s.cache ≡ v

tell-IsShowing :
    (s : Instancer) (entries : Entries)
    → IsIsolated s.cache
    → IsShowing (tell s entries) (shown entries)
unfolding tell
tell-IsShowing s (failed err) h =
    let k = view-step s.cache (Instances.updates none (some err)) h in
    record { isolated = k.0; shows = k.1 }
tell-IsShowing s (found instances) h =
    let k = view-step s.cache (Instances.updates instances none) h in
    record { isolated = k.0; shows = k.1 }

use-IsShowing :
    (s : Instancer) (u : Use) (v : View)
    → IsShowing s v
    → IsShowing (record s { cache = Instances.step s.cache (use_step u) }) v
use-IsShowing s (registers ch) v h =
    let k = view-step s.cache (Instances.registers ch) h.isolated in
    record { isolated = k.0; shows = k.1 ∙ h.shows }
use-IsShowing s (deregisters ch) v h =
    let k = view-step s.cache (Instances.deregisters ch) h.isolated in
    record { isolated = k.0; shows = k.1 ∙ h.shows }
use-IsShowing s reads v h =
    let k = view-step s.cache Instances.reads h.isolated in
    record { isolated = k.0; shows = k.1 ∙ h.shows }
use-IsShowing s (writes i xs) v h =
    let k = view-step s.cache (Instances.writes i xs) h.isolated in
    record { isolated = k.0; shows = k.1 ∙ h.shows }

stopped-IsShowing :
    (s : Instancer) (v : View) (es : List Event)
    → s.returned ≡ true
    → IsShowing s v
    → IsShowing (run s es) v
unfolding run step
stopped-IsShowing s v [] e h = h
stopped-IsShowing s v (notified entries ∷ es) e h =
    subst (λ b. IsShowing (run (if b then s else tell s entries) es) v) (sym e)
      (stopped-IsShowing s v es e h)
stopped-IsShowing s v (quits ∷ es) e h =
    stopped-IsShowing (record s { returned = true }) v es refl
      (record { isolated = h.isolated; shows = h.shows })
stopped-IsShowing s v (used u ∷ es) e h = stopped-IsShowing _ v es e (use-IsShowing s u v h)

run-IsShowing :
    (s : Instancer) (entries : Entries) (es : List Event)
    → s.returned ≡ false
    → IsShowing s (shown entries)
    → IsShowing (run s es) (shown (latest entries es))
unfolding run step
run-IsShowing s entries [] e h = h
run-IsShowing s entries (notified entries' ∷ es) e h =
    subst (λ b. IsShowing (run (if b then s else tell s entries') es) (shown (latest entries' es)))
      (sym e)
      (run-IsShowing (tell s entries') entries' es (told_runs s entries' e)
        (tell-IsShowing s entries' h.isolated))
  where
    told_runs :
        (s : Instancer) (entries : Entries) → s.returned ≡ false → (tell s entries).returned ≡ false
    told_runs s entries e = e
run-IsShowing s entries (quits ∷ es) e h =
    stopped-IsShowing (record s { returned = true }) (shown entries) es refl
      (record { isolated = h.isolated; shows = h.shows })
run-IsShowing s entries (used u ∷ es) e h =
    run-IsShowing _ entries es e (use-IsShowing s u (shown entries) h)

-- After any notifications, registrations, readings and writes of receivers to what they got, the cache
-- holds what the last lookup before the stop gave: its instances, sorted, and no error, or its error
-- and no instances.
pub view-follows :
    (h : Heap) (first : Entries) (es : List Event)
    → view (run (new_instancer h first) es).cache ≡ shown (latest first es)
unfolding new_instancer tell
view-follows h first es =
    let s : Instancer = record { cache = new_cache h; returned = false } in
    (run-IsShowing (tell s first) first es refl
      (tell-IsShowing s first (new_cache-IsIsolated h))).shows
