-- ===== src/Transport/Http/Client/Options.antt =====
-- transport/http/client.go: NewExplicitClient and its options. `default_client` is http.DefaultClient.
use yoroi.Prelude.{Option, List, [], ◌++◌, Bool, false}
use yoroi.Endpoint.{Reply}
use yoroi.Transport.Options.{apply_all}
use yoroi.Transport.Http.Client.{Done, Client}

pub data ClientOption {ℓ} (S C R P E : Type ℓ) : Type ℓ where
  set_client : (C → R → S → S × Done E P) → ClientOption S C R P E
  client_before : List (C → R → S → S × C) → ClientOption S C R P E
  client_after : List (C → P → S → S × C) → ClientOption S C R P E
  client_finalizer : List (C → Option E → S → S) → ClientOption S C R P E
  buffered_stream : Bool → ClientOption S C R P E

module _ {ℓ} {S C R P I E O : Type ℓ} where
  abbrev pub apply_option : Client S C R P I E O → ClientOption S C R P E → Client S C R P I E O
  apply_option c (set_client f) = record c { client = f }
  apply_option c (client_before fs) = record c { before = c.before ++ fs }
  apply_option c (client_after fs) = record c { after = c.after ++ fs }
  apply_option c (client_finalizer fs) = record c { finalizer = c.finalizer ++ fs }
  apply_option c (buffered_stream b) = record c { buffered_stream = b }

  unfoldable pub new_explicit_client :
      (C → R → S → S × Done E P)
      → (C → I → S → S × Reply E R)
      → (C → P → S → S × Reply E O)
      → List (ClientOption S C R P E)
      → Client S C R P I E O
  unfolding apply_all
  new_explicit_client default_client req dec options =
      apply_all apply_option
        (record {
          client = default_client;
          req = req;
          dec = dec;
          before = [];
          after = [];
          finalizer = [];
          buffered_stream = false;
        })
        options
