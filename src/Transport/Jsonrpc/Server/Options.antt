-- ===== src/Transport/Jsonrpc/Server/Options.antt =====
-- transport/http/jsonrpc/server.go: NewServer and its options. ServerErrorLogger sets a logger, and is left
-- out with it.
use yoroi.Prelude.{ℕ, none, some, List, [], ◌++◌, Assoc}
use yoroi.Transport.Options.{apply_all}
use yoroi.Transport.Jsonrpc.Error.{Err, Errors}
use yoroi.Prelude.{String}
use yoroi.Transport.Jsonrpc.Server.{
  Request, Op, EndpointCodec, Server, Library, default_error_encoder,
}

pub data ServerOption {ℓ} (S C Q N E : Type ℓ) : Type ℓ where
  server_before : List (C → Q → S → S × C × Q) → ServerOption S C Q N E
  server_before_codec : List (C → Q → Request N → S → S × C × Q) → ServerOption S C Q N E
  server_after : List (C → S → S × List (Op N) × C) → ServerOption S C Q N E
  server_error_encoder : (C → Err E → S → S × List (Op N)) → ServerOption S C Q N E
  server_finalizer : (C → ℕ → Q → S → S) → ServerOption S C Q N E

module _ {ℓ} {S C Q N I O E : Type ℓ} where
  abbrev pub apply_option : Server S C Q N I O E → ServerOption S C Q N E → Server S C Q N I O E
  apply_option s (server_before fs) = record s { before = s.before ++ fs }
  apply_option s (server_before_codec fs) = record s { before_codec = s.before_codec ++ fs }
  apply_option s (server_after fs) = record s { after = s.after ++ fs }
  apply_option s (server_error_encoder f) = record s { error_encoder = f }
  apply_option s (server_finalizer f) = record s { finalizer = some f }

  unfoldable pub new_server :
      Library C Q N
      → Errors E
      → (Err E → Assoc String)
      → Assoc (EndpointCodec S C I O E)
      → List (ServerOption S C Q N E)
      → Server S C Q N I O E
  unfolding apply_all
  new_server lib es headers ecm options =
      apply_all apply_option
        (record {
          ecm = ecm;
          before = [];
          before_codec = [];
          after = [];
          error_encoder = λ ctx e st. (st, default_error_encoder lib es headers ctx e);
          finalizer = none;
        })
        options
