-- ===== src/Sd/Eureka/Instancer.antt =====
-- sd/eureka/instancer.go. `text` prints a port. The loop is that of Watching, with the updates of the
-- fargo library.
use Prim.Native.String.{◌++◌ as join}
use yoroi.Prelude.{String, some, List, [], ◌∷◌}
use yoroi.Sd.Event.{Error}
use yoroi.Sd.InstanceCache.{Heap}
use yoroi.Sd.Watching.{Entries, failed, found, Instancer, new_instancer}

pub record Instance (P : Type 0) : Type 0 where
  pub ip_addr : String
  pub port : P

-- fargo.AppUpdate
pub data AppUpdate (P : Type 0) : Type 0 where
  refused : Error → AppUpdate P
  app : List (Instance P) → AppUpdate P

module _ {P : Type 0} (text : P → String) where
  unfoldable pub convert_fargo_app_to_instances : List (Instance P) → List String
  convert_fargo_app_to_instances [] = []
  convert_fargo_app_to_instances (inst ∷ rest) =
      join inst.ip_addr (join ":" (text inst.port)) ∷ convert_fargo_app_to_instances rest

  -- What `consume` tells the cache.
  unfoldable pub consume : AppUpdate P → Entries
  consume (refused err) = failed err
  consume (app instances) = found (some (convert_fargo_app_to_instances instances))

  unfoldable pub new_eureka_instancer : Heap → AppUpdate P → Instancer
  new_eureka_instancer h update = new_instancer h (consume update)
