-- ===== src/Sd/Watching/Tests.antt =====
-- The theorem about the loop of the instancers at concrete events.
use yoroi.Prelude.{◌≡◌, none, some, List, [], ◌∷◌}
use yoroi.Sd.InstanceCache.Updates.{view}
use yoroi.Sd.Watching.{
  failed, found, Event, notified, quits, used, registers, writes, run, new_instancer,
}
use yoroi.Sd.Watching.Following.{shown, latest, view-follows}

-- A receiver overwrites what it got, and a lookup comes after the stop.
abbrev events : List Event
events =
    notified (failed "timeout")
    ∷ used (registers 1)
    ∷ notified (found (some ("b" ∷ "a" ∷ [])))
    ∷ used (writes 0 ("x" ∷ []))
    ∷ quits
    ∷ notified (found none)
    ∷ []

view-follows_example :
    view (run (new_instancer [] (found none)) events).cache ≡ shown (latest (found none) events)
view-follows_example = view-follows [] (found none) events
