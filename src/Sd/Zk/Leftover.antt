-- ===== src/Sd/Zk/Leftover.antt =====
-- What Deregister of sd/zk/client.go does about the node that Register has made.
use yoroi.Prelude.{
  ℕ, ◌≡◌, ◌≢◌, refl, sym, ap, subst, ◌∙◌, String, Option, none, some, [], ◌∷◌, ◌++◌, true, false,
  ◌==◌, arith, if◌then◌else◌,
}
use yoroi.Auth.Bytes.{Bytes}
use yoroi.Sd.Event.{Error}
use yoroi.Sd.Zk.{
  Conn, Result, ok, err, panicked, Service, last_byte, Client, with_slash, made, add_node, below,
  register_at, register, deleted, delete_found, deregister_node, deregister, create_parent_nodes,
}

-- What ZooKeeper says of nodes: the node that is created below a path makes it a node with children; such
-- a node exists, and Delete does not delete it.
pub record IsZooKeeper {Z : Type 0} (conn : Conn Z) (HasChildren : Bytes → Z → Type 0)
    : Type 0 where
  pub child_made :
      (path : Bytes) (payload : String) (z z' : Z) (node : Bytes)
      → conn.create_protected (path ++ 47 ∷ []) payload z ≡ (z', node, none)
      → HasChildren path z' × (node ≢ [])
  pub parent_exists :
      (path : Bytes) (z : Z)
      → HasChildren path z
      → (version : ℕ) × (conn.exists path z ≡ (z, true, version, none))
  pub parent_stays :
      (path : Bytes) (version : ℕ) (z : Z)
      → HasChildren path z
      → conn.delete path version z ≡ (z, some "zk: node has children")

module _ {Z : Type 0} (conn : Conn Z) (HasChildren : Bytes → Z → Type 0)
    (zk : IsZooKeeper conn HasChildren) where
  -- A registered service, with a name that does not end in a slash.
  record IsRegistered (s : Service) (z : Z) : Type 0 where
    children : HasChildren (s.path ++ s.name) z
    node : s.node ≢ []

  made-IsRegistered :
      (s : Service) (z : Z) (out : Z × Bytes × Option Error)
      → conn.create_protected ((s.path ++ s.name) ++ 47 ∷ []) s.payload z ≡ out
      → (made s out).2 ≡ ok
      → IsRegistered (made s out).1 (made s out).0
  made-IsRegistered s z (z', node, none) e h =
      let k = zk.child_made (s.path ++ s.name) s.payload z z' node e in
      record { children = k.0; node = k.1 }
  made-IsRegistered s z (z', node, some x) e h = cc

  add_node-IsRegistered :
      (s : Service) (z : Z) (o : Option ℕ)
      → o ≢ some 47
      → (add_node conn s (with_slash (s.path ++ s.name) o) z).2 ≡ ok
      → let r = add_node conn s (with_slash (s.path ++ s.name) o) z in IsRegistered r.1 r.0
  add_node-IsRegistered s z none d h = cc
  add_node-IsRegistered s z (some b) d h =
      let no : (b == 47) ≡ false = ground (arith, d) in
      let path = s.path ++ s.name in
      let e : add_node conn s (with_slash path (some b)) z
          ≡ made s (conn.create_protected (path ++ 47 ∷ []) s.payload z) =
        ap (λ t. add_node conn s (some (if t then path else path ++ 47 ∷ [])) z) no in
      subst (λ r. IsRegistered r.1 r.0) (sym e)
        (made-IsRegistered s z _ refl (ap (λ r. r.2) (sym e) ∙ h))

  below-IsRegistered :
      (s : Service) (out : Z × Result)
      → last_byte (s.path ++ s.name) ≢ some 47
      → (below conn s out).2 ≡ ok
      → IsRegistered (below conn s out).1 (below conn s out).0
  below-IsRegistered s (z, ok) d h = add_node-IsRegistered s z (last_byte (s.path ++ s.name)) d h
  below-IsRegistered s (z, err e) d h = cc
  below-IsRegistered s (z, panicked) d h = cc

  deregister_node_fails :
      (s : Service) (node : Bytes) (z : Z)
      → node ≢ []
      → HasChildren (s.path ++ s.name) z
      → deregister_node conn s node z ≡ (z, err "zk: node has children")
  deregister_node_fails s [] z d h = absurd (d refl)
  deregister_node_fails s (b ∷ bs) z d h =
      let (version, e) = zk.parent_exists (s.path ++ s.name) z h in
      ap (delete_found conn (s.path ++ s.name)) e
      ∙ ap (deleted) (zk.parent_stays (s.path ++ s.name) version z h)

  -- If ZooKeeper creates a node for a service whose name does not end in a slash, then Deregister of that
  -- service right after it always fails and changes nothing: it tries to delete the node above, which
  -- has children.
  pub deregister_leaves_node :
      (c : Client) (s : Service) (z : Z)
      → ((path : Bytes) → last_byte (path ++ s.name) ≢ some 47)
      → let r = register conn c s z in
        r.2 ≡ ok → deregister conn r.1 r.0 ≡ (r.0, err "zk: node has children")
  unfolding register deregister
  deregister_leaves_node c s z d h =
      let r = registered (with_slash s.path (last_byte s.path)) h in
      deregister_node_fails (register conn c s z).1 (register conn c s z).1.node
        (register conn c s z).0 r.node r.children
    where
      registered :
          (o : Option Bytes)
          → (register_at conn c s o z).2 ≡ ok
          → IsRegistered (register_at conn c s o z).1 (register_at conn c s o z).0
      registered none h = cc
      registered (some path) h =
          below-IsRegistered (record s { path = path })
            (create_parent_nodes conn c (path ++ s.name) z) (d path) h
