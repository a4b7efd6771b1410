-- ===== src/Transport/Http/Server/Options.antt =====
-- transport/http/server.go: NewServer and its options.
use mathlib.Core.List.{append_assoc, append-nil}
use yoroi.Prelude.{ℕ, ◌≡◌, sym, ap, ◌∙◌, Option, List, [], ◌∷◌, ◌++◌}
use yoroi.Endpoint.{Endpoint, Reply}
use yoroi.Transport.Http.Server.{Op, Server}
use yoroi.Transport.Http.Server.Encoders.{Described, Marshaled, default_error_encoder}

-- ServerErrorLogger gives an error handler as well.
pub data ServerOption {ℓ} (S C Q E : Type ℓ) : Type ℓ where
  server_before : List (C → Q → S → S × C) → ServerOption S C Q E
  server_after : List (C → S → S × List Op × C) → ServerOption S C Q E
  server_error_encoder : (C → E → S → S × List Op) → ServerOption S C Q E
  server_error_handler : (C → E → S → S) → ServerOption S C Q E
  server_finalizer : List (C → ℕ → Q → S → S) → ServerOption S C Q E

module _ {ℓ} {S C Q I E O : Type ℓ} where
  abbrev pub apply_option : Server S C Q I E O → ServerOption S C Q E → Server S C Q I E O
  apply_option s (server_before fs) = record s { before = s.before ++ fs }
  apply_option s (server_after fs) = record s { after = s.after ++ fs }
  apply_option s (server_error_encoder f) = record s { error_encoder = f }
  apply_option s (server_error_handler f) = record s { error_handler = f }
  apply_option s (server_finalizer fs) = record s { finalizer = s.finalizer ++ fs }

  unfoldable pub apply_options :
      Server S C Q I E O → List (ServerOption S C Q E) → Server S C Q I E O
  apply_options s [] = s
  apply_options s (option ∷ options) = apply_options (apply_option s option) options

  -- The logger of the default error handler drops all that it gets.
  unfoldable pub new_server :
      Described E
      → Marshaled E
      → Endpoint S C I E O
      → (C → Q → S → S × Reply E I)
      → (C → O → S → S × List Op × Option E)
      → List (ServerOption S C Q E)
      → Server S C Q I E O
  unfolding apply_options
  new_server d m e dec enc options =
      apply_options
        (record {
          e = e;
          dec = dec;
          enc = enc;
          before = [];
          after = [];
          error_encoder = λ ctx err state. (state, default_error_encoder d m err);
          error_handler = λ ctx err state. state;
          finalizer = [];
        })
        options

module _ {ℓ} {S C Q E : Type ℓ} where
  -- What the options say, each list in their order and each function by the last one.
  abbrev pub befores : List (ServerOption S C Q E) → List (C → Q → S → S × C)
  befores [] = []
  befores (server_before fs ∷ options) = fs ++ befores options
  befores (_ ∷ options) = befores options

  abbrev pub afters : List (ServerOption S C Q E) → List (C → S → S × List Op × C)
  afters [] = []
  afters (server_after fs ∷ options) = fs ++ afters options
  afters (_ ∷ options) = afters options

  abbrev pub finalizers : List (ServerOption S C Q E) → List (C → ℕ → Q → S → S)
  finalizers [] = []
  finalizers (server_finalizer fs ∷ options) = fs ++ finalizers options
  finalizers (_ ∷ options) = finalizers options

  abbrev pub last_encoder :
      (C → E → S → S × List Op) → List (ServerOption S C Q E) → C → E → S → S × List Op
  last_encoder f [] = f
  last_encoder f (server_error_encoder g ∷ options) = last_encoder g options
  last_encoder f (_ ∷ options) = last_encoder f options

  abbrev pub last_handler : (C → E → S → S) → List (ServerOption S C Q E) → C → E → S → S
  last_handler f [] = f
  last_handler f (server_error_handler g ∷ options) = last_handler g options
  last_handler f (_ ∷ options) = last_handler f options

module _ {ℓ} {S C Q I E O : Type ℓ} where
  abbrev pub with_options : Server S C Q I E O → List (ServerOption S C Q E) → Server S C Q I E O
  with_options s options = record s {
    before = s.before ++ befores options;
    after = s.after ++ afters options;
    error_encoder = last_encoder s.error_encoder options;
    error_handler = last_handler s.error_handler options;
    finalizer = s.finalizer ++ finalizers options;
  }

  apply_options_lem :
      (s : Server S C Q I E O) (options : List (ServerOption S C Q E))
      → apply_options s options ≡ with_options s options
  unfolding apply_options
  apply_options_lem s [] =
      sym (ap (λ xs. record s { before = xs }) (append-nil s.before))
      ∙ sym (ap (λ xs. record s { before = s.before ++ []; after = xs }) (append-nil s.after))
      ∙ sym (
          ap (λ xs. record s { before = s.before ++ []; after = s.after ++ []; finalizer = xs })
            (append-nil s.finalizer))
  apply_options_lem s (server_before fs ∷ options) =
      apply_options_lem (apply_option s (server_before fs)) options
      ∙ ap (λ xs. record (with_options s options) { before = xs })
          (append_assoc s.before fs (befores options))
  apply_options_lem s (server_after fs ∷ options) =
      apply_options_lem (apply_option s (server_after fs)) options
      ∙ ap (λ xs. record (with_options s options) { after = xs })
          (append_assoc s.after fs (afters options))
  apply_options_lem s (server_error_encoder f ∷ options) =
      apply_options_lem (apply_option s (server_error_encoder f)) options
  apply_options_lem s (server_error_handler f ∷ options) =
      apply_options_lem (apply_option s (server_error_handler f)) options
  apply_options_lem s (server_finalizer fs ∷ options) =
      apply_options_lem (apply_option s (server_finalizer fs)) options
      ∙ ap (λ xs. record (with_options s options) { finalizer = xs })
          (append_assoc s.finalizer fs (finalizers options))

  -- NewServer with any options gives a server whose functions before, after and at the end are those
  -- of all options in their order, and whose error encoder and handler are the last ones given, or
  -- DefaultErrorEncoder and a handler that does nothing.
  pub new_server_options :
      (d : Described E) (m : Marshaled E) (e : Endpoint S C I E O) (dec : C → Q → S → S × Reply E I)
      (enc : C → O → S → S × List Op × Option E) (options : List (ServerOption S C Q E))
      → new_server d m e dec enc options ≡ record {
        e = e;
        dec = dec;
        enc = enc;
        before = befores options;
        after = afters options;
        error_encoder =
            last_encoder (λ ctx err state. (state, default_error_encoder d m err)) options;
        error_handler = last_handler (λ ctx err state. state) options;
        finalizer = finalizers options;
      }
  unfolding new_server
  new_server_options d m e dec enc options = apply_options_lem _ options
