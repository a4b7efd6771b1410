-- ===== src/Sd/Zk/Tests.antt =====
-- The theorem about sd/zk/client.go at a concrete service.
use yoroi.Prelude.{
  ℕ, ◌≡◌, ◌≢◌, refl, sym, ap, ◌∙◌, Option, none, some, [], ◌∷◌, ◌++◌, Bool, true, false, arith,
  if◌then◌else◌,
}
use yoroi.Auth.Bytes.{Bytes}
use yoroi.Sd.Zk.{Conn, err, Service, Client, last_byte, create_parent_nodes, register, deregister}
use yoroi.Sd.Zk.Leftover.{IsZooKeeper, deregister_leaves_node}

-- The world is whether a protected node was created.
abbrev conn : Conn Bool
conn = record {
  create = λ path payload z. (z, none);
  create_protected = λ path payload z. (true, 95 ∷ [], none);
  exists = λ path z. (z, true, 0, none);
  delete = λ path version z. (z, if z then some "zk: node has children" else none);
  children = λ path z. (z, [], none);
  get = λ path z. (z, none);
}

abbrev HasChildren : Bytes → Bool → Type 0
HasChildren path z = z ≡ true

not_empty : (b : ℕ) (bs : Bytes) → (b ∷ bs) ≢ []
not_empty b bs h = cc

conn-IsZooKeeper : IsZooKeeper conn HasChildren
conn-IsZooKeeper = record {
  child_made = λ path payload z z' node e.
      (sym (ap (λ r. r.0) e), λ empty. not_empty 95 [] (ap (λ r. r.1) e ∙ empty));
  parent_exists = λ path z h. (0, refl);
  parent_stays =
      λ path version z h. ap (λ b. (z, if b then some "zk: node has children" else none)) h;
}

abbrev client : Client
client = record { active = true; root_node_payload = [] }

-- The service "a" below "/s".
abbrev service : Service
service = record { path = 47 ∷ 115 ∷ []; name = 97 ∷ []; payload = "10.0.0.1:80"; node = [] }

abbrev byte : Option ℕ → ℕ
byte none = 0
byte (some b) = b

not_slash : (path : Bytes) → last_byte (path ++ 97 ∷ []) ≢ some 47
not_slash [] h = absurd (omega (arith, ap byte h))
not_slash (b ∷ []) h = absurd (omega (arith, ap byte h))
not_slash (b ∷ c ∷ path) h = not_slash (c ∷ path) h

deregister_leaves_node_example :
    deregister conn (register conn client service false).1 (register conn client service false).0
    ≡ ((register conn client service false).0, err "zk: node has children")
unfolding register create_parent_nodes
deregister_leaves_node_example =
    deregister_leaves_node conn HasChildren conn-IsZooKeeper client service false not_slash refl
