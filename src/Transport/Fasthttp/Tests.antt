-- ===== src/Transport/Fasthttp/Tests.antt =====
-- The theorem about the fasthttp server at a response whose JSON form cannot be made.
use yoroi.Prelude.{ℕ, ◌≡◌, refl, String, none, some, [], ◌∷◌}
use yoroi.Transport.Http.Server.Encoders.{Described}
use yoroi.Transport.Fasthttp.{
  RequestCtx, Server, Encoded, fails, Marshaled, encode_json_response, default_error_encoder,
  run_all, handle,
}
use yoroi.Transport.Fasthttp.Failing.{encoding, error_replaces}

abbrev created : Described String
created = record { headers = λ o. none; status_code = λ o. some 201 }

abbrev plain : Described String
plain = record { headers = λ e. none; status_code = λ e. none }

abbrev texts : Marshaled String
texts = record { marshal_json = λ e. none; text_of = λ e. e }

abbrev no_json : String → Encoded String
no_json o = fails "unsupported value"

-- A function after the endpoint has written to the body.
abbrev server : Server ℕ String String String
server = record {
  e = λ i ctx. (ctx, record { response = i; err = none });
  dec = λ ctx. (ctx, record { response = "in"; err = none });
  enc = encode_json_response created no_json;
  before = [];
  after = (λ ctx. record ctx { response = record ctx.response { body = "early" } }) ∷ [];
  error_encoder = default_error_encoder plain texts;
  error_handler = λ err ctx. ctx;
  finalizer = [];
}

abbrev start : RequestCtx ℕ
start = record { response = record { status = 200; header = []; body = "" }; state = 0 }

error_replaces_example :
    ((handle server start).response.status ≡ 500)
    × ((handle server start).response.body ≡ "unsupported value")
unfolding run_all encode_json_response
error_replaces_example =
    error_replaces server plain texts (λ err ctx. refl) start "unsupported value"
      (encoding "in" start "in" start refl refl refl)
