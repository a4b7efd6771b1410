-- ===== src/Sd/Zk.antt =====
-- sd/zk/client.go over the calls of the ZooKeeper library. Paths are bytes, and 47 is the slash. Its
-- instancer has the loop of Watching.
pub mod Leftover
mod Tests
use yoroi.Prelude.{
  ℕ, suc, String, Option, none, some, List, [], ◌∷◌, ◌++◌, Bool, true, false, ◌==◌, not,
  if◌then◌else◌,
}
use yoroi.Auth.Bytes.{Bytes}
use yoroi.Sd.Event.{Error}
use yoroi.Sd.InstanceCache.{Heap}
use yoroi.Sd.Watching.{Entries, failed, found, Instancer, new_or_fail}

pub data CreateError : Type 0 where
  node_exists : CreateError
  no_auth : CreateError
  other : Error → CreateError

-- The connection, whose world is `Z`.
pub record Conn (Z : Type 0) : Type 0 where
  pub create : Bytes → String → Z → Z × Option CreateError
  pub create_protected : Bytes → String → Z → Z × Bytes × Option Error
  pub exists : Bytes → Z → Z × Bool × ℕ × Option Error
  pub delete : Bytes → ℕ → Z → Z × Option Error
  pub children : Bytes → Z → Z × List Bytes × Option Error
  pub get : Bytes → Z → Z × Option String

pub data Result : Type 0 where
  ok : Result
  err : Error → Result
  panicked : Result

pub record Service : Type 0 where
  pub path : Bytes
  pub name : Bytes
  pub payload : String
  pub node : Bytes

abbrev pub last_byte : Bytes → Option ℕ
last_byte [] = none
last_byte (b ∷ []) = some b
last_byte (b ∷ c ∷ bs) = last_byte (c ∷ bs)

-- strings.Split at slashes, in what stands before the first one and after it.
abbrev pub split : Bytes → Bytes × List Bytes
split [] = ([], [])
split (b ∷ bs) =
    let (first, rest) = split bs in if b == 47 then ([], first ∷ rest) else (b ∷ first, rest)

abbrev pub first_payload : List String → String
first_payload [] = ""
first_payload (p ∷ ps) = p

abbrev pub other_payloads : List String → List String
other_payloads [] = []
other_payloads (p ∷ ps) = ps

-- The error, but not where it is no issue.
abbrev pub issue : Option CreateError → Option Error
issue none = none
issue (some node_exists) = none
issue (some no_auth) = none
issue (some (other e)) = some e

-- The client: `active`, and the payloads of root nodes.
pub record Client : Type 0 where
  pub active : Bool
  pub root_node_payload : List String

-- append, where `none` is the nil slice.
abbrev pub add_entry : Option String → Option (List String) → Option (List String)
add_entry none resp = resp
add_entry (some s) none = some (s ∷ [])
add_entry (some s) (some resp) = some (resp ++ s ∷ [])

abbrev pub with_slash : Bytes → Option ℕ → Option Bytes
with_slash path none = none
with_slash path (some b) = some (if b == 47 then path else path ++ 47 ∷ [])

module _ {Z : Type 0} where
  abbrev pub unless_failed : Option Error → (Z → Z × Result) → Z → Z × Result
  unless_failed none next z = next z
  unless_failed (some e) next z = (z, err e)

  abbrev pub found_entries : Z × Option (List String) → Z × Entries
  found_entries (z, resp) = (z, found resp)

  -- The protected node, where its parent nodes are there.
  abbrev pub made : Service → Z × Bytes × Option Error → Z × Service × Result
  made s (z, node, some e) = (z, s, err e)
  made s (z, node, none) = (z, record s { node = node }, ok)

  abbrev pub deleted : Z × Option Error → Z × Result
  deleted (z, none) = (z, ok)
  deleted (z, some e) = (z, err e)

module _ {Z : Type 0} (conn : Conn Z) where
  -- The loop over the nodes of the path.
  abbrev pub create_nodes : List String → Bytes → List Bytes → Z → Z × Result
  create_nodes payloads prefix [] z = (z, ok)
  create_nodes payloads prefix (n ∷ ns) z =
      let path = prefix ++ 47 ∷ n in
      let (z', e) = conn.create path (first_payload payloads) z in
      unless_failed (issue e) (create_nodes (other_payloads payloads) path ns) z'

  abbrev pub create_from : Client → Bytes → Z → Z × Result
  create_from c [] z = (z, panicked)
  create_from c (b ∷ bs) z =
      if b == 47
      then create_nodes c.root_node_payload [] (split (b ∷ bs)).1 z
      else (z, err "zk: invalid path")

  unfoldable pub create_parent_nodes : Client → Bytes → Z → Z × Result
  create_parent_nodes c path z =
      if c.active then create_from c path z else (z, err "client service closed")

  -- The loop over the child nodes.
  abbrev pub get_all : Bytes → List Bytes → Option (List String) → Z → Z × Option (List String)
  get_all path [] resp z = (z, resp)
  get_all path (n ∷ ns) resp z =
      let (z', entry) = conn.get (path ++ 47 ∷ n) z in get_all path ns (add_entry entry resp) z'

  abbrev pub entries_of : Bytes → Z × List Bytes × Option Error → Z × Entries
  entries_of path (z, znodes, some e) = (z, failed e)
  entries_of path (z, znodes, none) = found_entries (get_all path znodes none z)

  unfoldable pub get_entries : Bytes → Z → Z × Entries
  get_entries path z = entries_of path (conn.children path z)

  abbrev pub add_node : Service → Option Bytes → Z → Z × Service × Result
  add_node s none z = (z, s, panicked)
  add_node s (some path) z = made s (conn.create_protected path s.payload z)

  abbrev pub below : Service → Z × Result → Z × Service × Result
  below s (z, ok) = let path = s.path ++ s.name in add_node s (with_slash path (last_byte path)) z
  below s (z, err e) = (z, s, err e)
  below s (z, panicked) = (z, s, panicked)

  abbrev pub register_at : Client → Service → Option Bytes → Z → Z × Service × Result
  register_at c s none z = (z, s, panicked)
  register_at c s (some path) z =
      below (record s { path = path }) (create_parent_nodes c (path ++ s.name) z)

  unfoldable pub register : Client → Service → Z → Z × Service × Result
  unfolding create_parent_nodes
  register c s z = register_at c s (with_slash s.path (last_byte s.path)) z

  abbrev pub delete_found : Bytes → Z × Bool × ℕ × Option Error → Z × Result
  delete_found path (z, there, version, some e) = (z, err e)
  delete_found path (z, false, version, none) = (z, err "node not found")
  delete_found path (z, true, version, none) = deleted (conn.delete path version z)

  abbrev pub deregister_node : Service → Bytes → Z → Z × Result
  deregister_node s [] z = (z, err "not registered")
  deregister_node s (b ∷ bs) z = delete_found (s.path ++ s.name) (conn.exists (s.path ++ s.name) z)

  unfoldable pub deregister : Service → Z → Z × Result
  deregister s z = deregister_node s s.node z
