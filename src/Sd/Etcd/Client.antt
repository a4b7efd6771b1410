-- ===== src/Sd/Etcd/Client.antt =====
-- sd/etcd/client.go: GetEntries, Register and Deregister over the calls of etcd's KeysAPI.
use yoroi.Prelude.{ℕ, String, Option, none, some, List, [], ◌∷◌, str_eq, if◌then◌else◌}
use yoroi.Sd.Event.{Error}
use yoroi.Sd.Watching.{Entries, failed, found}
use yoroi.Sd.Etcd.Ttl.{TtlOption}

-- The node of a response, with the values of the nodes below it.
pub record Node : Type 0 where
  pub value : String
  pub nodes : List String

pub data Got : Type 0 where
  refused : Error → Got
  got : Node → Got

abbrev pub values : String → List String → List String
values value [] = if str_eq value "" then [] else value ∷ []
values value (node ∷ nodes) = node ∷ nodes

unfoldable pub get_entries : Got → Entries
get_entries (refused err) = failed err
get_entries (got node) = found (some (values node.value node.nodes))

pub record Service : Type 0 where
  pub key : String
  pub value : String
  pub ttl : Option TtlOption

-- The KeysAPI, whose world is `Z`.
pub record KeysApi (Z : Type 0) : Type 0 where
  pub set : String → String → ℕ → Z → Z × Option Error
  pub create : String → String → Z → Z × Option Error
  pub delete : String → Z → Z × Option Error

module _ {Z : Type 0} (keys : KeysApi Z) where
  abbrev pub set_or_create : Service → Option TtlOption → Z → Z × Option Error
  set_or_create s none z = keys.create s.key s.value z
  set_or_create s (some o) z = keys.set s.key s.value o.ttl z

  unfoldable pub register : Service → Z → Z × Option Error
  register s z =
      if str_eq s.key ""
      then (z, some "no key provided")
      else if str_eq s.value ""
      then (z, some "no value provided")
      else set_or_create s s.ttl z

  unfoldable pub deregister : Service → Z → Z × Option Error
  deregister s z = if str_eq s.key "" then (z, some "no key provided") else keys.delete s.key z
