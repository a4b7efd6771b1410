-- ===== src/Transport/Tests.antt =====
-- The theorems about the transports at concrete values.
use yoroi.Prelude.{
  ℕ, ◌+◌, ◌≡◌, refl, String, Option, none, some, List, [], ◌∷◌, true, false, Assoc, lookup, str_eq,
  arith, subst,
}
use yoroi.Transport.Http.InterceptingWriter.{
  flusher, reader_from, Implements, Call, headed, wrote, read, InterceptingWriter, intercept,
}
use yoroi.Transport.Http.InterceptingWriter.Wrapping.{onto, sent_code}
use yoroi.Transport.Http.Server as Http
use yoroi.Transport.Http.Server.Finalizing.{Finalized, serve_http-Finalized}
use yoroi.Transport.Http.Server.Encoders.{
  Encoded, fails, Described, Marshaled, encode_json_response, default_error_encoder,
}
use yoroi.Transport.Http.Server.Options.{ServerOption, server_finalizer}
use yoroi.Transport.Http.Server.Handling.{encoding_error_hidden}
use yoroi.Transport.Http.Client as HttpClient
use yoroi.Transport.Http.Client.Releasing.{IsReleased, endpoint-IsReleased}
use yoroi.Transport.Jsonrpc.Error.{Err, user, Errors}
use yoroi.Transport.Jsonrpc.Server as Rpc
use yoroi.Transport.Jsonrpc.Server.Answers.{IsAnswer, IsEncoder, serve_http-IsAnswer}

abbrev flushing : Implements
flushing flusher = true
flushing reader_from = true
flushing _ = false

abbrev sent : List Call
sent = headed 200 ∷ wrote 5 ∷ read 1000 ∷ []

-- A server that keeps the codes its finalizers are told, over numbers.
abbrev no_headers : Described ℕ
no_headers = record { headers = λ o. none; status_code = λ o. none }

abbrev json : ℕ → Encoded ℕ
json o = fails 9

abbrev texts : Marshaled ℕ
texts = record { marshal_json = λ e. none; text = λ e. 4 }

abbrev server : Http.Server (List ℕ) ℕ ℕ ℕ ℕ ℕ
server = record {
  e = λ c i st. (st, record { response = i; err = none });
  dec = λ c q st. (st, record { response = q; err = none });
  enc = λ c o st.
      (st, (encode_json_response no_headers json o).0, (encode_json_response no_headers json o).1);
  before = [];
  after = [];
  error_encoder = λ c e st. (st, default_error_encoder no_headers texts e);
  error_handler = λ c e st. st;
  finalizer = (λ c code q st. code ∷ st) ∷ [];
}

abbrev keys : Http.Keys ℕ
keys = record { with_headers = λ h c. c; with_size = λ n c. n }

abbrev fresh : Http.Run (List ℕ) ℕ
fresh = record {
  state = [];
  ctx = 0;
  w = record { header = []; target = Http.intercepted intercept };
}

serve_http-Finalized_example :
    (r : Http.Run (List ℕ) ℕ) × (r ≡ Http.handle server 3 fresh)
    × Finalized server keys 3 r (Http.serve_http keys server 0 3 [])
serve_http-Finalized_example =
    serve_http-Finalized server keys 0 3 [] (λ c code q st. code ∷ st) [] refl

encoding_error_hidden_example :
    (iw : InterceptingWriter) × ((Http.encode server 3 fresh).w.target ≡ Http.intercepted iw)
    × (sent_code (onto iw.underlying []) ≡ 200)
    × (iw.code ≡ 500)
encoding_error_hidden_example =
    encoding_error_hidden server no_headers json no_headers texts 3 9 fresh refl refl refl
      (λ c e st. refl) refl (ground arith) (omega arith)

abbrev Numbered : Type 0
Numbered = Option (Option ℕ)

-- One method, whose endpoint fails and whose encoder writes an object; a context holds the identifier only.
abbrev codec : Rpc.EndpointCodec ℕ Numbered String String String
codec = record {
  endpoint = λ c i st. (st, record { response = i; err = some (user "overflow") });
  decode = λ c params st. (st, record { response = params; err = none });
  encode = λ c o st. (st, "{}", none);
}

abbrev sum_request : Rpc.Request ℕ
sum_request = record { method = "sum"; params = "[1,2]"; id = some 7 }

abbrev library : Rpc.Library Numbered ℕ ℕ
library = record {
  http_method = λ q. "POST";
  decoded = λ q. some sum_request;
  decode_error = λ q. "";
  body_read = λ q. q;
  with_id = λ id c. some id;
  with_method = λ m c. c;
  request_id = λ c. c;
  is_json = λ t. str_eq t "{}";
}

abbrev errors : Errors String
errors = record { message_of = λ e. e; code_of = λ e. none }

abbrev nothing_more : Err String → Assoc String
nothing_more e = []

abbrev rpc_server : Rpc.Server ℕ Numbered ℕ ℕ String String String
rpc_server = record {
  ecm = ("sum", codec) ∷ [];
  before = (λ c q st. (st + 1, c, q)) ∷ [];
  before_codec = [];
  after = [];
  error_encoder = λ c e st. (st, Rpc.default_error_encoder library errors nothing_more c e);
  finalizer = none;
}

codec-IsEncoder : IsEncoder library.is_json codec
codec-IsEncoder c o st e = (refl, refl)

found : lookup "sum" rpc_server.ecm ≡ some codec
unfolding lookup
found = refl

codec_found :
    (ec : Rpc.EndpointCodec ℕ Numbered String String String)
    → lookup "sum" rpc_server.ecm ≡ some ec
    → codec ≡ ec
codec_found ec e = cc (found, e)

found-IsEncoder :
    (ec : Rpc.EndpointCodec ℕ Numbered String String String)
    → lookup "sum" rpc_server.ecm ≡ some ec
    → IsEncoder library.is_json ec
found-IsEncoder ec e = subst (IsEncoder library.is_json) (codec_found ec e) codec-IsEncoder

serve_http-IsAnswer_example : IsAnswer (some 7) (Rpc.serve_http library rpc_server none 0 0).ops
unfolding Rpc.run_after Rpc.run_before Rpc.run_before_codec
serve_http-IsAnswer_example =
    serve_http-IsAnswer library rpc_server errors nothing_more (λ c e st. refl) (λ r. (refl, refl))
      none 0 0 sum_request (λ id c. refl) (λ m c. refl) (λ q r. refl) found-IsEncoder refl refl

abbrev told_twice : List (ServerOption (List ℕ) ℕ ℕ ℕ)
told_twice =
    server_finalizer ((λ c code q st. code ∷ st) ∷ [])
    ∷ server_finalizer ((λ c code q st. q ∷ st) ∷ [])
    ∷ []

-- A client whose stream is buffered, over numbers.
abbrev zeros : HttpClient.Library ℕ ℕ ℕ ℕ ℕ ℕ
zeros = record { no_request = 0; no_response = 0; invalid_request = 1; with_response = λ p st c. p }

abbrev streaming : HttpClient.Client ℕ ℕ ℕ ℕ ℕ ℕ ℕ
streaming = record {
  req = λ c i st. (st, record { response = i; err = none });
  client = λ c r st. (st, HttpClient.answered (r + 1));
  dec = λ c p st. (st, record { response = p; err = none });
  before = [];
  after = [];
  finalizer = (λ c err st. st + c) ∷ [];
  buffered_stream = true;
}

endpoint-IsReleased_example :
    IsReleased zeros streaming (HttpClient.endpoint zeros streaming 0 (HttpClient.typed 3) 0)
endpoint-IsReleased_example = endpoint-IsReleased zeros streaming 0 (HttpClient.typed 3) 0
