-- ===== src/Transport/Fasthttp.antt =====
-- transport/fasthttp/server.go: the handler that NewServer returns, and the default encoders. The functions
-- given to a server work on one *RequestCtx, which has the response; `S` is the rest of it and of the
-- program. Calls on the header are kept with the last one first, and a body is a text.
pub mod Failing
pub mod Options
mod Tests
use Prim.Native.String.{◌++◌ as join}
use yoroi.Prelude.{
  ℕ, String, Option, none, some, List, [], ◌∷◌, ◌++◌, Bool, true, false, ◌==◌, Assoc, if◌then◌else◌,
}
use yoroi.Endpoint.{Reply}
use yoroi.Transport.Http.Server.Encoders.{Described, code_or}

pub data HeaderCall : Type 0 where
  sets : String → String → HeaderCall
  adds : String → String → HeaderCall

pub record Response : Type 0 where
  pub status : ℕ
  pub header : List HeaderCall
  pub body : String

pub record RequestCtx {ℓ} (S : Type ℓ) : Type ℓ where
  pub response : Response
  pub state : S

pub record Server {ℓ} (S I E O : Type ℓ) : Type ℓ where
  pub e : I → RequestCtx S → RequestCtx S × Reply E O
  pub dec : RequestCtx S → RequestCtx S × Reply E I
  pub enc : O → RequestCtx S → RequestCtx S × Option E
  pub before : List (RequestCtx S → RequestCtx S)
  pub after : List (RequestCtx S → RequestCtx S)
  pub error_encoder : E → RequestCtx S → RequestCtx S
  pub error_handler : E → RequestCtx S → RequestCtx S
  pub finalizer : List (RequestCtx S → RequestCtx S)

module _ {ℓ} {S : Type ℓ} where
  -- The loops over `before`, `after` and `finalizer`.
  unfoldable pub run_all : List (RequestCtx S → RequestCtx S) → RequestCtx S → RequestCtx S
  run_all [] ctx = ctx
  run_all (f ∷ fs) ctx = run_all fs (f ctx)

  abbrev pub with_response : (Response → Response) → RequestCtx S → RequestCtx S
  with_response f ctx = record ctx { response = f ctx.response }

  -- The deferred function. `set_values` puts the header and the size of the body under their keys.
  abbrev pub finish :
      (Response → S → S) → List (RequestCtx S → RequestCtx S) → RequestCtx S → RequestCtx S
  finish set_values [] ctx = ctx
  finish set_values (f ∷ fs) ctx =
      run_all (f ∷ fs) (record ctx { state = set_values ctx.response ctx.state })

module _ {ℓ} {S I E O : Type ℓ} where
  -- The error handler, then the error encoder.
  abbrev pub refuse : Server S I E O → E → RequestCtx S → RequestCtx S
  refuse s err ctx = s.error_encoder err (s.error_handler err ctx)

  -- `if err != nil` with its return.
  abbrev pub unless_failed :
      Server S I E O → Option E → (RequestCtx S → RequestCtx S) → RequestCtx S → RequestCtx S
  unless_failed s none next ctx = next ctx
  unless_failed s (some err) next ctx = refuse s err ctx

  unfoldable pub encode : Server S I E O → O → RequestCtx S → RequestCtx S
  encode s response ctx = let (ctx', err) = s.enc response ctx in unless_failed s err (λ x. x) ctx'

  unfoldable pub respond : Server S I E O → I → RequestCtx S → RequestCtx S
  unfolding encode
  respond s request ctx =
      let (ctx', reply) = s.e request ctx in
      unless_failed s reply.err (λ x. encode s reply.response (run_all s.after x)) ctx'

  -- All that is not deferred.
  unfoldable pub handle : Server S I E O → RequestCtx S → RequestCtx S
  unfolding respond
  handle s ctx =
      let (ctx', reply) = s.dec (run_all s.before ctx) in
      unless_failed s reply.err (respond s reply.response) ctx'

  unfoldable pub serve : (Response → S → S) → Server S I E O → RequestCtx S → RequestCtx S
  unfolding handle
  serve set_values s ctx = finish set_values s.finalizer (handle s ctx)

abbrev pub add_all : String → List String → List HeaderCall → List HeaderCall
add_all k [] calls = calls
add_all k (v ∷ vs) calls = add_all k vs (adds k v ∷ calls)

abbrev pub add_values : Assoc (List String) → List HeaderCall → List HeaderCall
add_values [] calls = calls
add_values ((k, vs) ∷ rest) calls = add_values rest (add_all k vs calls)

abbrev pub add_headers : Option (Assoc (List String)) → List HeaderCall → List HeaderCall
add_headers none calls = calls
add_headers (some h) calls = add_values h calls

-- What `json.Encoder` writes for a value, or its error.
pub data Encoded {ℓ} (E : Type ℓ) : Type ℓ where
  text : String → Encoded E
  fails : E → Encoded E

module _ {ℓ} {E : Type ℓ} where
  abbrev pub write_body : Response → Encoded E → Response × Option E
  write_body r (text t) = (record r { body = join r.body t }, none)
  write_body r (fails e) = (r, some e)

module _ {ℓ} {S E O : Type ℓ} where
  unfoldable pub encode_json_response :
      Described O → (O → Encoded E) → O → RequestCtx S → RequestCtx S × Option E
  encode_json_response d json response ctx =
      let code = code_or 200 (d.status_code response) in
      let headed : Response = record ctx.response {
        status = code;
        header =
            add_headers (d.headers response)
              (sets "Content-Type" "application/json; charset=utf-8" ∷ ctx.response.header);
      } in
      if code == 204 then (record ctx { response = headed }, none) else (
        record ctx { response = (write_body headed (json response)).0 },
        (write_body headed (json response)).1,
      )

-- The message of an error, and its JSON form if it implements Marshaler and the call succeeds.
pub record Marshaled {ℓ} (E : Type ℓ) : Type ℓ where
  pub marshal_json : E → Option String
  pub text_of : E → String

abbrev pub content_type : Option String → String
content_type none = "text/plain; charset=utf-8"
content_type (some body) = "application/json; charset=utf-8"

abbrev pub body_or : String → Option String → String
body_or t none = t
body_or t (some body) = body

module _ {ℓ} {S E : Type ℓ} where
  unfoldable pub default_error_encoder : Described E → Marshaled E → E → RequestCtx S → RequestCtx S
  default_error_encoder d m err ctx = record ctx {
    response = record {
      status = code_or 500 (d.status_code err);
      header =
          add_headers (d.headers err)
            (sets "Content-Type" (content_type (m.marshal_json err)) ∷ ctx.response.header);
      body = body_or (m.text_of err) (m.marshal_json err);
    };
  }
