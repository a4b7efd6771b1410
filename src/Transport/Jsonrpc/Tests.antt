-- ===== src/Transport/Jsonrpc/Tests.antt =====
-- The theorems about the JSON-RPC client at a concrete client and server. The context holds the methods
-- that were put into it, the state counts calls, and an HTTP request is its JSON-RPC request.
use yoroi.Prelude.{
  ℕ, ◌+◌, ◌≡◌, refl, ap, String, Option, none, some, List, [], ◌∷◌, Bool, true, false, lookup,
  Assoc, str_eq, if◌then◌else◌,
}
use yoroi.Endpoint.{Reply}
use yoroi.Transport.Http.Client.{answered, typed, cancelled}
use yoroi.Transport.Jsonrpc.Error.{Error, Err, Errors}
use yoroi.Transport.Jsonrpc.Server as Server
use yoroi.Transport.Jsonrpc.Server.{
  Op, encoded, EndpointCodec, Server, Response, serve_http, default_error_encoder,
}
use yoroi.Transport.Jsonrpc.Server.Answers.{IsResult}
use yoroi.Transport.Jsonrpc.Server.Replies.{bodies}
use yoroi.Transport.Jsonrpc.Client as Client
use yoroi.Transport.Jsonrpc.Client.{
  Client, ClientRequest, endpoint, default_response_decoder, new_auto_increment_id, generate,
}
use yoroi.Transport.Jsonrpc.Client.Releasing.{IsEnded, endpoint-IsEnded}
use yoroi.Transport.Jsonrpc.Through.{Reading, read_response, call_answered}

abbrev Rpc : Type 0
Rpc = ClientRequest ℕ

abbrev slib : Server.Library (List String) Rpc ℕ
slib = record {
  http_method = λ q. "POST";
  decoded = λ q. some (record { method = q.method; params = q.params; id = some q.id });
  decode_error = λ q. "";
  body_read = λ q. q;
  with_id = λ id ctx. ctx;
  with_method = λ m ctx. m ∷ ctx;
  request_id = λ ctx. none;
  is_json = λ t. if str_eq t "true" then true else str_eq t "false";
}

abbrev errors : Errors String
errors = record { message_of = λ e. e; code_of = λ e. none }

abbrev no_headers : Err String → Assoc String
no_headers e = []

abbrev result : Bool → String
result true = "true"
result false = "false"

-- It knows Ann.
abbrev register : EndpointCodec ℕ (List String) String Bool String
register = record {
  endpoint = λ ctx name st. (st + 1, record { response = str_eq name "Ann"; err = none });
  decode = λ ctx params st. (st, record { response = params; err = none });
  encode = λ ctx o st. (st, result o, none);
}

abbrev server : Server ℕ (List String) Rpc ℕ String Bool String
server = record {
  ecm = ("knows", register) ∷ [];
  before = (λ ctx q st. (st + 10, "seen" ∷ ctx, q)) ∷ [];
  before_codec = [];
  after = [];
  error_encoder = λ ctx e st. (st, default_error_encoder slib errors no_headers ctx e);
  finalizer = none;
}

abbrev plain : Reading ℕ
plain = record { read_id = λ id. id; read_result = λ t. t; read_error = λ e. e }

-- The JSON value of a body, if it is the only one.
abbrev read : List (Op ℕ) → Reply String (Response ℕ)
read (encoded res ∷ []) = record { response = read_response plain res; err = none }
read _ = record { response = record { id = none; result = none; err = none }; err = some "EOF" }

abbrev library : Client.Library ℕ (List String) Rpc (List (Op ℕ)) ℕ ℕ String Bool
library = record {
  no_response = false;
  invalid_request = "invalid request";
  with_response = λ p ctx. "answered" ∷ ctx;
  with_method = λ m ctx. m ∷ ctx;
  new_request = record {
    response = record { jsonrpc = ""; method = ""; params = ""; id = 0 };
    err = none;
  };
  with_body = λ rpc q. record { response = rpc; err = none };
  decoded = λ p st. (st, read (bodies p));
}

abbrev bool_of : Option String → Reply String Bool
bool_of none = record { response = false; err = some "null" }
bool_of (some t) = record { response = str_eq t "true"; err = none }

-- Its `Do` reaches the server; its stream is buffered.
abbrev client : Client ℕ (List String) Rpc (List (Op ℕ)) ℕ ℕ String String Bool
client = record {
  client = λ ctx q st. let run = serve_http slib server [] q st in (run.state, answered run.ops);
  method = "knows";
  enc = λ ctx i st. (st, i, none);
  dec = default_response_decoder false (λ (e : Error). e.message) bool_of;
  before = (λ ctx q st. (st, "before" ∷ ctx, q)) ∷ [];
  after = [];
  finalizer = some (λ ctx e st. st + 100);
  request_id = λ st. (st + 1, st);
  buffered_stream = true;
}

endpoint-IsEnded_example :
    IsEnded library client (cancelled ∷ []) (endpoint library client [] (typed "Ann") 7)
endpoint-IsEnded_example = endpoint-IsEnded library client [] (typed "Ann") 7

found : lookup "knows" server.ecm ≡ some register
unfolding lookup
found = refl

result-IsResult : (u : Bool) → IsResult slib.is_json (result u)
result-IsResult true = (refl, refl)
result-IsResult false = (refl, refl)

bool_of-result : (u : Bool) → bool_of (some (result u)) ≡ record { response = u; err = none }
bool_of-result true = refl
bool_of-result false = refl

abbrev question : Rpc
question = record { jsonrpc = "2.0"; method = "knows"; params = "Ann"; id = 7 }

call_answered_example :
    (endpoint library client [] (typed "Ann") 7).reply ≡ record { response = true; err = none }
unfolding Server.run_before Client.run_all
call_answered_example =
    call_answered library client (λ (e : Error). e.message) bool_of (λ x res st. refl) slib server
      errors no_headers (λ x e st. refl) register found result (λ x u st. refl) result-IsResult refl
      plain (λ u. u) bool_of-result [] [] "Ann" 7 7 "Ann" question question
      (record { method = "knows"; params = "Ann"; id = some 7 }) "Ann"
      (serve_http slib server [] question 8).ops refl refl refl refl refl refl (λ x st. refl)
      (λ res h. ap (λ xs. ((serve_http slib server [] question 8).state, read xs)) h)
