-- ===== src/Sd/Dnssrv.antt =====
-- sd/dnssrv/instancer.go. `join_host_port` stands for net.JoinHostPort of a target and a printed port.
-- The cache is known by the events that it is updated with.
pub mod Lookups
mod Tests
use yoroi.Prelude.{
  ℕ, ◌≡◌, ◌≢◌, ◌⊎◌, inl, inr, refl, ap, sym, subst, ◌∙◌, String, Option, none, some, List, [], ◌∷◌,
  map, Bool, true, false, ◌==◌, ==_iff, arith, if◌then◌else◌, if_either, Bool-cases,
}
use yoroi.Sd.Event.{Error, Event}

-- net.SRV, without the priority and the weight.
pub record Srv : Type 0 where
  pub target : String
  pub port : ℕ

-- What Lookup returns.
pub data Answer : Type 0 where
  failed : Error → Answer
  found : List Srv → Answer

pub data Resolved : Type 0 where
  refused : Error → Resolved
  resolved : List String → Resolved

abbrev pub err_port_zero : Error
err_port_zero = "resolver returned SRV record with port 0"

abbrev pub after_first : String → Resolved → Resolved
after_first first (refused err) = refused err
after_first first (resolved instances) = resolved (first ∷ instances)

-- The loop of the instancer, whose cache got `updates`, the last one first.
pub record Loop : Type 0 where
  pub updates : List Event
  pub returned : Bool

-- The two cases of its select: a tick, with what the lookup then returns, and the closed `quit`.
pub data Selected : Type 0 where
  ticked : Answer → Selected
  quit : Selected

abbrev pub told : Loop → Resolved → Loop
told s (refused err) = record s {
  updates = record { instances = none; err = some err } ∷ s.updates;
}
told s (resolved instances) = record s {
  updates = record { instances = some instances; err = none } ∷ s.updates;
}

module _ (join_host_port : String → ℕ → String) where
  -- The loop of `resolve` over the records.
  unfoldable pub resolve_all : List Srv → Resolved
  resolve_all [] = resolved []
  resolve_all (addr ∷ addrs) =
      let rest = resolve_all addrs in
      if addr.port == 0
      then refused err_port_zero
      else after_first (join_host_port addr.target addr.port) rest

  unfoldable pub resolve : Answer → Resolved
  resolve (failed err) = refused err
  resolve (found addrs) = resolve_all addrs

  abbrev pub select : Loop → Selected → Loop
  select s (ticked answer) = told s (resolve answer)
  select s quit = record s { returned = true }

  -- One round of the loop, and the rounds for some cases.
  unfoldable pub round : Loop → Selected → Loop
  round s e = if s.returned then s else select s e

  unfoldable pub loop : Loop → List Selected → Loop
  loop s [] = s
  loop s (e ∷ es) = loop (round s e) es

  -- NewInstancerDetailed, up to the start of the loop.
  unfoldable pub new_instancer_detailed : Answer → Loop
  new_instancer_detailed answer = told (record { updates = []; returned = false }) (resolve answer)
