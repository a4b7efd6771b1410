-- ===== src/Transport/Options.antt =====
-- The loop over the options in the constructors of transport/http, transport/grpc, transport/fasthttp and
-- transport/http/jsonrpc.
use yoroi.Prelude.{List, [], ◌∷◌}

module _ {ℓ} {A B : Type ℓ} where
  unfoldable pub apply_all : (A → B → A) → A → List B → A
  apply_all apply a [] = a
  apply_all apply a (option ∷ options) = apply_all apply (apply a option) options
