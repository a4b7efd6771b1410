-- ===== src/Transport/Grpc/Client/Options.antt =====
-- transport/grpc/client.go: NewClient and its options. `invoke` is that of the connection, with the name of
-- the service and the method.
use yoroi.Prelude.{Option, List, [], ◌++◌}
use yoroi.Endpoint.{Reply}
use yoroi.Transport.Options.{apply_all}
use yoroi.Transport.Grpc.Client.{Invoked, Client}

pub data ClientOption {ℓ} (S C E M : Type ℓ) : Type ℓ where
  client_before : List (C → M → S → S × C × M) → ClientOption S C E M
  client_after : List (C → M → M → S → S × C) → ClientOption S C E M
  client_finalizer : List (C → Option E → S → S) → ClientOption S C E M

module _ {ℓ} {S C Q P I E O M : Type ℓ} where
  abbrev pub apply_option : Client S C Q P I E O M → ClientOption S C E M → Client S C Q P I E O M
  apply_option c (client_before fs) = record c { before = c.before ++ fs }
  apply_option c (client_after fs) = record c { after = c.after ++ fs }
  apply_option c (client_finalizer fs) = record c { finalizer = c.finalizer ++ fs }

  unfoldable pub new_client :
      (C → Q → S → S × Invoked P E M)
      → (C → I → S → S × Reply E Q)
      → (C → P → S → S × Reply E O)
      → List (ClientOption S C E M)
      → Client S C Q P I E O M
  unfolding apply_all
  new_client invoke enc dec options =
      apply_all apply_option
        (record { invoke = invoke; enc = enc; dec = dec; before = []; after = []; finalizer = [] })
        options
