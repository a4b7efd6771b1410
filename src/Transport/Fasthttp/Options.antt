-- ===== src/Transport/Fasthttp/Options.antt =====
-- transport/fasthttp/server.go: NewServer and its options. ServerErrorLogger gives an error handler as well.
use yoroi.Prelude.{Option, List, [], ◌++◌}
use yoroi.Endpoint.{Reply}
use yoroi.Transport.Options.{apply_all}
use yoroi.Transport.Http.Server.Encoders.{Described}
use yoroi.Transport.Fasthttp.{RequestCtx, Server, Marshaled, default_error_encoder}

pub data ServerOption {ℓ} (S E : Type ℓ) : Type ℓ where
  server_before : List (RequestCtx S → RequestCtx S) → ServerOption S E
  server_after : List (RequestCtx S → RequestCtx S) → ServerOption S E
  server_error_encoder : (E → RequestCtx S → RequestCtx S) → ServerOption S E
  server_error_handler : (E → RequestCtx S → RequestCtx S) → ServerOption S E
  server_finalizer : List (RequestCtx S → RequestCtx S) → ServerOption S E

module _ {ℓ} {S I E O : Type ℓ} where
  abbrev pub apply_option : Server S I E O → ServerOption S E → Server S I E O
  apply_option s (server_before fs) = record s { before = s.before ++ fs }
  apply_option s (server_after fs) = record s { after = s.after ++ fs }
  apply_option s (server_error_encoder f) = record s { error_encoder = f }
  apply_option s (server_error_handler f) = record s { error_handler = f }
  apply_option s (server_finalizer fs) = record s { finalizer = s.finalizer ++ fs }

  -- The logger of the default error handler drops all that it gets.
  unfoldable pub new_server :
      Described E
      → Marshaled E
      → (I → RequestCtx S → RequestCtx S × Reply E O)
      → (RequestCtx S → RequestCtx S × Reply E I)
      → (O → RequestCtx S → RequestCtx S × Option E)
      → List (ServerOption S E)
      → Server S I E O
  unfolding apply_all
  new_server d m e dec enc options =
      apply_all apply_option
        (record {
          e = e;
          dec = dec;
          enc = enc;
          before = [];
          after = [];
          error_encoder = default_error_encoder d m;
          error_handler = λ err ctx. ctx;
          finalizer = [];
        })
        options
