-- ===== src/Transport/Jsonrpc/Server.antt =====
-- transport/http/jsonrpc/server.go: ServeHTTP and DefaultErrorEncoder. `Q` stands for HTTP requests,
-- `N` for the identifiers of requests, `S` for the rest of the program. Raw JSON is text, and an empty one
-- is what the encoder omits.
pub mod Options
pub mod Runs
pub mod Answers
pub mod Replies
use yoroi.Prelude.{
  ℕ, String, Option, none, some, List, [], ◌∷◌, ◌++◌, Bool, true, false, str_eq, not, if◌then◌else◌,
  Assoc, lookup,
}
use Prim.Native.String.{◌++◌ as join}
use yoroi.Endpoint.{Endpoint, Reply}
use yoroi.Transport.Jsonrpc.Error.{
  ℤ, internal_error_code, Error, Err, parse_error, method_not_found_error, Errors, error,
  error_code,
}

pub record Request {ℓ} (N : Type ℓ) : Type ℓ where
  pub method : String
  pub params : String
  pub id : Option N

-- `JSONRPC` is always "2.0".
pub record Response {ℓ} (N : Type ℓ) : Type ℓ where
  pub id : Option N
  pub result : Option String
  pub err : Option Error

-- Calls of the response writer.
pub data Op {ℓ} (N : Type ℓ) : Type ℓ where
  sets : String → String → Op N
  headed : ℕ → Op N
  wrote : String → Op N
  -- `json.Encoder` writes a response
  encoded : Response N → Op N

pub record EndpointCodec {ℓ} (S C I O E : Type ℓ) : Type ℓ where
  pub endpoint : Endpoint S C I (Err E) O
  pub decode : C → String → S → S × Reply (Err E) I
  pub encode : C → O → S → S × String × Option (Err E)

pub record Server {ℓ} (S C Q N I O E : Type ℓ) : Type ℓ where
  pub ecm : Assoc (EndpointCodec S C I O E)
  -- these may change the request, or read its body
  pub before : List (C → Q → S → S × C × Q)
  pub before_codec : List (C → Q → Request N → S → S × C × Q)
  pub after : List (C → S → S × List (Op N) × C)
  pub error_encoder : C → Err E → S → S × List (Op N)
  pub finalizer : Option (C → ℕ → Q → S → S)

-- net/http and encoding/json on a request: its method, and its body as a request or an error; the
-- values of a context under the keys of the package; and whether a text is valid JSON.
pub record Library {ℓ} (C Q N : Type ℓ) : Type ℓ where
  pub http_method : Q → String
  pub decoded : Q → Option (Request N)
  pub decode_error : Q → String
  -- the request once its body is read
  pub body_read : Q → Q
  pub with_id : Option N → C → C
  pub with_method : String → C → C
  pub request_id : C → Option (Option N)
  pub is_json : String → Bool

pub record Run {ℓ} (S C N : Type ℓ) : Type ℓ where
  pub state : S
  pub ctx : C
  -- the calls of the response writer, the first one first
  pub ops : List (Op N)

-- `Result` with its `omitempty`.
abbrev pub result_field : String → Option String
result_field t = if str_eq t "" then none else some t

module _ {ℓ} {N : Type ℓ} where
  -- `json.Encoder` on the response, whose error is ignored: with a result that is not JSON it writes nothing.
  abbrev pub encode_response : (String → Bool) → Option N → Option String → List (Op N)
  encode_response is_json id none = encoded (record { id = id; result = none; err = none }) ∷ []
  encode_response is_json id (some t) =
      if is_json t then encoded (record { id = id; result = some t; err = none }) ∷ [] else []

  -- The `code` of the intercepting writer.
  abbrev pub intercepted_code : ℕ → List (Op N) → ℕ
  intercepted_code code [] = code
  intercepted_code code (headed c ∷ ops) = intercepted_code c ops
  intercepted_code code (sets k v ∷ ops) = intercepted_code code ops
  intercepted_code code (wrote t ∷ ops) = intercepted_code code ops
  intercepted_code code (encoded res ∷ ops) = intercepted_code code ops

  abbrev pub not_allowed : List (Op N)
  not_allowed =
      sets "Content-Type" "text/plain; charset=utf-8" ∷ headed 405 ∷ wrote "405 must POST\n" ∷ []

module _ {ℓ} {S C Q N : Type ℓ} where
  unfoldable pub run_before : List (C → Q → S → S × C × Q) → Q → Run S C N → Run S C N × Q
  run_before [] q r = (r, q)
  run_before (f ∷ fs) q r =
      let (state', ctx', q') = f r.ctx q r.state in
      run_before fs q' (record r { state = state'; ctx = ctx' })

  unfoldable pub run_before_codec :
      List (C → Q → Request N → S → S × C × Q) → Q → Request N → Run S C N → Run S C N × Q
  run_before_codec [] q req r = (r, q)
  run_before_codec (f ∷ fs) q req r =
      let (state', ctx', q') = f r.ctx q req r.state in
      run_before_codec fs q' req (record r { state = state'; ctx = ctx' })

  abbrev pub finish : Option (C → ℕ → Q → S → S) → Q → Run S C N → Run S C N
  finish none q r = r
  finish (some f) q r = record r { state = f r.ctx (intercepted_code 200 r.ops) q r.state }

module _ {ℓ} {S C N : Type ℓ} where
  unfoldable pub run_after : List (C → S → S × List (Op N) × C) → Run S C N → Run S C N
  run_after [] r = r
  run_after (f ∷ fs) r =
      let (state', ops', ctx') = f r.ctx r.state in
      run_after fs (record { state = state'; ctx = ctx'; ops = r.ops ++ ops' })

  unfoldable pub send_result : (String → Bool) → Request N → String → Run S C N → Run S C N
  send_result is_json req result' r = record r {
    ops =
        r.ops
        ++ sets "Content-Type" "application/json; charset=utf-8"
          ∷ encode_response is_json req.id (result_field result');
  }

module _ {ℓ} {S C Q N I O E : Type ℓ} where
  unfoldable pub refuse : Server S C Q N I O E → Err E → Run S C N → Run S C N
  refuse s err r =
      let (state', ops') = s.error_encoder r.ctx err r.state in
      record r { state = state'; ops = r.ops ++ ops' }

  -- `if err != nil` with its return.
  unfoldable pub unless_failed :
      Server S C Q N I O E → Option (Err E) → (Run S C N → Run S C N) → Run S C N → Run S C N
  unless_failed s none next r = next r
  unless_failed s (some err) next r = refuse s err r

  -- From the answer of the endpoint on.
  unfoldable pub respond :
      Library C Q N
      → Server S C Q N I O E
      → EndpointCodec S C I O E
      → Request N
      → O
      → Run S C N
      → Run S C N
  respond lib s ec req response r =
      let r1 = run_after s.after r in
      let (state', result', err') = ec.encode r1.ctx response r1.state in
      unless_failed s err' (send_result lib.is_json req result') (record r1 { state = state' })

  unfoldable pub call_endpoint :
      Library C Q N
      → Server S C Q N I O E
      → EndpointCodec S C I O E
      → Request N
      → I
      → Run S C N
      → Run S C N
  call_endpoint lib s ec req params' r =
      let (state', reply) = ec.endpoint r.ctx params' r.state in
      unless_failed s reply.err (respond lib s ec req reply.response) (record r { state = state' })

  -- With the codec of the method, if there is one.
  unfoldable pub dispatch :
      Library C Q N
      → Server S C Q N I O E
      → Option (EndpointCodec S C I O E)
      → Request N
      → Run S C N
      → Run S C N
  dispatch lib s none req r =
      refuse s (method_not_found_error (join "Method " (join req.method " was not found."))) r
  dispatch lib s (some ec) req r =
      let (state', reply) = ec.decode r.ctx req.params r.state in
      unless_failed s reply.err (call_endpoint lib s ec req reply.response)
        (record r { state = state' })

  -- These return the request too, as it is at the end.
  unfoldable pub take_request :
      Library C Q N → Server S C Q N I O E → Q → Request N → Run S C N → Run S C N × Q
  take_request lib s q req r =
      let ctx' = lib.with_method req.method (lib.with_id req.id r.ctx) in
      let (r1, q') = run_before_codec s.before_codec q req (record r { ctx = ctx' }) in
      (dispatch lib s (lookup req.method s.ecm) req r1, q')

  unfoldable pub read_body :
      Library C Q N → Server S C Q N I O E → Q → Option (Request N) → Run S C N → Run S C N × Q
  read_body lib s q none r = (
    refuse s (parse_error (join "JSON could not be decoded: " (lib.decode_error q))) r,
    lib.body_read q,
  )
  read_body lib s q (some req) r = take_request lib s (lib.body_read q) req r

  -- From the functions before on.
  unfoldable pub serve_post : Library C Q N → Server S C Q N I O E → Q → Run S C N → Run S C N
  serve_post lib s q start =
      let (r, q') = run_before s.before q start in
      let (r', q'') = read_body lib s q' (lib.decoded q') r in finish s.finalizer q'' r'

  unfoldable pub serve_http : Library C Q N → Server S C Q N I O E → C → Q → S → Run S C N
  serve_http lib s ctx q state =
      let start : Run S C N = record { state = state; ctx = ctx; ops = [] } in
      if str_eq (lib.http_method q) "POST"
      then serve_post lib s q start
      else record start { ops = not_allowed }

-- `headers` is a user's Headerer, with the first value of each key.
abbrev pub set_headers {ℓ} : {N : Type ℓ} → Assoc String → List (Op N) → List (Op N)
set_headers [] ops = ops
set_headers ((k, v) ∷ rest) ops = sets k v ∷ set_headers rest ops

abbrev pub code_or : Option ℤ → ℤ
code_or none = internal_error_code
code_or (some c) = c

-- The identifier that `ctx.Value(requestIDKey)` gives.
abbrev pub known {ℓ} : {N : Type ℓ} → Option (Option N) → Option N
known none = none
known (some id) = id

module _ {ℓ} {C Q N E : Type ℓ} where
  unfoldable pub default_error_encoder :
      Library C Q N → Errors E → (Err E → Assoc String) → C → Err E → List (Op N)
  default_error_encoder lib es headers ctx err' =
      sets "Content-Type" "application/json; charset=utf-8"
      ∷ set_headers (headers err') (
          headed 200
          ∷ encoded (record {
            id = known (lib.request_id ctx);
            result = none;
            err = some (record { code = code_or (error_code es err'); message = error es err' });
          })
          ∷ [])
