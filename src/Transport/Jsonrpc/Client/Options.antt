-- ===== src/Transport/Jsonrpc/Client/Options.antt =====
-- transport/http/jsonrpc/client.go: NewClient and its options.
use yoroi.Prelude.{String, Option, none, some, List, [], ◌++◌, Bool, false}
use yoroi.Endpoint.{Reply}
use yoroi.Transport.Options.{apply_all}
use yoroi.Transport.Http.Client.{Done}
use yoroi.Transport.Jsonrpc.Error.{Error}
use yoroi.Transport.Jsonrpc.Server.{Response}
use yoroi.Transport.Jsonrpc.Client.{Client, default_response_decoder}

pub data ClientOption {ℓ} (S C R P M N I E O : Type ℓ) : Type ℓ where
  set_client : (C → R → S → S × Done E P) → ClientOption S C R P M N I E O
  client_before : List (C → R → S → S × C × R) → ClientOption S C R P M N I E O
  client_after : List (C → P → S → S × C × P) → ClientOption S C R P M N I E O
  client_finalizer : (C → Option E → S → S) → ClientOption S C R P M N I E O
  client_request_encoder : (C → I → S → S × String × Option E) → ClientOption S C R P M N I E O
  client_response_decoder : (C → Response N → S → S × Reply E O) → ClientOption S C R P M N I E O
  client_request_id_generator : (S → S × M) → ClientOption S C R P M N I E O
  buffered_stream : Bool → ClientOption S C R P M N I E O

-- http.DefaultClient, json.Marshal of a request and json.Unmarshal of a result, and the generator
-- `NewAutoIncrementID(0)`, whose variable is in the state.
pub record Defaults {ℓ} (S C R P M I E O : Type ℓ) : Type ℓ where
  pub default_client : C → R → S → S × Done E P
  pub marshal : I → String × Option E
  pub unmarshal : Option String → Reply E O
  pub no_response : O
  pub rpc_error : Error → E
  pub auto_increment : S → S × M

module _ {ℓ} {S C R P M N I E O : Type ℓ} where
  abbrev pub apply_option :
      Client S C R P M N I E O → ClientOption S C R P M N I E O → Client S C R P M N I E O
  apply_option c (set_client f) = record c { client = f }
  apply_option c (client_before fs) = record c { before = c.before ++ fs }
  apply_option c (client_after fs) = record c { after = c.after ++ fs }
  apply_option c (client_finalizer f) = record c { finalizer = some f }
  apply_option c (client_request_encoder f) = record c { enc = f }
  apply_option c (client_response_decoder f) = record c { dec = f }
  apply_option c (client_request_id_generator f) = record c { request_id = f }
  apply_option c (buffered_stream b) = record c { buffered_stream = b }

  unfoldable pub new_client :
      Defaults S C R P M I E O
      → String
      → List (ClientOption S C R P M N I E O)
      → Client S C R P M N I E O
  unfolding apply_all
  new_client d method options =
      apply_all apply_option
        (record {
          client = d.default_client;
          method = method;
          enc = λ ctx i st. (st, (d.marshal i).0, (d.marshal i).1);
          dec = default_response_decoder d.no_response d.rpc_error d.unmarshal;
          before = [];
          after = [];
          finalizer = none;
          request_id = d.auto_increment;
          buffered_stream = false;
        })
        options
