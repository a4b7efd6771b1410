-- ===== src/Transport/Grpc/Server/Options.antt =====
-- transport/grpc/server.go: NewServer and its options. ServerErrorLogger gives an error handler as well.
use yoroi.Prelude.{Option, List, [], ◌++◌}
use yoroi.Endpoint.{Endpoint, Reply}
use yoroi.Transport.Options.{apply_all}
use yoroi.Transport.Grpc.Server.{Server}

pub data ServerOption {ℓ} (S C E M : Type ℓ) : Type ℓ where
  server_before : List (C → M → S → S × C) → ServerOption S C E M
  server_after : List (C → M → M → S → S × C × M × M) → ServerOption S C E M
  server_error_handler : (C → E → S → S) → ServerOption S C E M
  server_finalizer : List (C → Option E → S → S) → ServerOption S C E M

module _ {ℓ} {S C Q P I E O M : Type ℓ} where
  abbrev pub apply_option : Server S C Q P I E O M → ServerOption S C E M → Server S C Q P I E O M
  apply_option s (server_before fs) = record s { before = s.before ++ fs }
  apply_option s (server_after fs) = record s { after = s.after ++ fs }
  apply_option s (server_error_handler f) = record s { error_handler = f }
  apply_option s (server_finalizer fs) = record s { finalizer = s.finalizer ++ fs }

  -- The logger of the default error handler drops all that it gets.
  unfoldable pub new_server :
      Endpoint S C I E O
      → (C → Q → S → S × Reply E I)
      → (C → O → S → S × Reply E P)
      → List (ServerOption S C E M)
      → Server S C Q P I E O M
  unfolding apply_all
  new_server e dec enc options =
      apply_all apply_option
        (record {
          e = e;
          dec = dec;
          enc = enc;
          before = [];
          after = [];
          finalizer = [];
          error_handler = λ ctx err st. st;
        })
        options
