-- ===== src/Transport/Jsonrpc/Client.antt =====
-- transport/http/jsonrpc/client.go: Endpoint, the default decoder, the constructor with its options, and
-- the generator of identifiers. `R` stands for HTTP requests, `P` for HTTP responses, `M` for the
-- identifiers of requests and `N` for those of responses; `S` is the rest of the program.
pub mod Options
pub mod Ids
pub mod Releasing
use yoroi.Prelude.{
  ℕ, ◌+◌, ◌-◌, ◌%◌, ◌^◌, String, Option, none, some, List, [], ◌∷◌, ◌++◌, Bool, true, false,
  if◌then◌else◌,
}
use yoroi.Endpoint.{Reply}
use yoroi.Transport.Http.Client.{
  Done, answered, failed, Given, typed, nil, mistyped, Release, cancelled, body_closed, Run,
}
use yoroi.Transport.Jsonrpc.Error.{Error}
use yoroi.Transport.Jsonrpc.Server.{Response}

pub record ClientRequest {ℓ} (M : Type ℓ) : Type ℓ where
  pub jsonrpc : String
  pub method : String
  pub params : String
  pub id : M

pub record Client {ℓ} (S C R P M N I E O : Type ℓ) : Type ℓ where
  pub client : C → R → S → S × Done E P
  pub method : String
  pub enc : C → I → S → S × String × Option E
  pub dec : C → Response N → S → S × Reply E O
  -- these may change the request or the response, or read their bodies
  pub before : List (C → R → S → S × C × R)
  pub after : List (C → P → S → S × C × P)
  pub finalizer : Option (C → Option E → S → S)
  pub request_id : S → S × M
  pub buffered_stream : Bool

-- The zero value of the response, transport.InvalidRequest, the values of a context, and what
-- net/http and encoding/json do: the POST request for the URL of the client, that request with a
-- body, and the body of a response.
pub record Library {ℓ} (S C R P M N E O : Type ℓ) : Type ℓ where
  pub no_response : O
  pub invalid_request : E
  pub with_response : P → C → C
  pub with_method : String → C → C
  pub new_request : Reply E R
  pub with_body : ClientRequest M → R → Reply E R
  pub decoded : P → S → S × Reply E (Response N)

module _ {ℓ} {S C X : Type ℓ} where
  -- The loops over `before` and `after`.
  unfoldable pub run_all : List (C → X → S → S × C × X) → X → S × C → S × C × X
  run_all [] x (state, ctx) = (state, ctx, x)
  run_all (f ∷ fs) x (state, ctx) =
      let (state', ctx', x') = f ctx x state in run_all fs x' (state', ctx')

module _ {ℓ} {S C R P M N I E O : Type ℓ} (lib : Library S C R P M N E O)
    (c : Client S C R P M N I E O) where
  -- A return with an error before there is a usable response. `cancel` runs last, and is left to `endpoint`.
  unfoldable pub give_up : E → Option P → S → C → Run S C P E O
  give_up err resp state ctx = record {
    state = state;
    ctx = ctx;
    resp = resp;
    released = [];
    reply = record { response = lib.no_response; err = some err };
  }

  -- A return of the endpoint once the body is to be closed, which is the one that `Do` gave; `resp` is the
  -- response as the functions after have left it.
  abbrev pub return_with : P → C → S × Reply E O → Run S C P E O
  return_with p ctx (state, reply) = record {
    state = state;
    ctx = ctx;
    resp = some p;
    released = if c.buffered_stream then [] else body_closed ∷ [];
    reply = reply;
  }

  -- `return res, err`, or `return response, nil`.
  abbrev pub or_zero : S → O → Option E → S × Reply E O
  or_zero state response none = (state, record { response = response; err = none })
  or_zero state response (some err) = (state, record { response = lib.no_response; err = some err })

  abbrev pub apply_dec : C → S → Response N → Option E → S × Reply E O
  apply_dec ctx state res none =
      let (state', reply) = c.dec ctx res state in or_zero state' reply.response reply.err
  apply_dec ctx state res (some err) =
      (state, record { response = lib.no_response; err = some err })

  abbrev pub decode : C → S × Reply E (Response N) → S × Reply E O
  decode ctx (state, res) = apply_dec ctx state res.response res.err

  -- From the response on.
  unfoldable pub receive : P → S → C → Run S C P E O
  receive p state ctx =
      let (state1, ctx1, p1) = run_all c.after p (state, ctx) in
      return_with p1 ctx1 (decode ctx1 (lib.decoded p1 state1))

  unfoldable pub after_do : Done E P → S → C → Run S C P E O
  after_do (failed err resp) state ctx = give_up err resp state ctx
  after_do (answered p) state ctx = receive p state ctx

  unfoldable pub send : R → S → C → Run S C P E O
  send r state ctx =
      let (state1, ctx1, r1) = run_all c.before r (state, ctx) in
      let (state2, done) = c.client ctx1 r1 state1 in after_do done state2 ctx1

  abbrev pub send_made : R → S → C → Option E → Run S C P E O
  send_made r state ctx none = send r state ctx
  send_made r state ctx (some err) = give_up err none state ctx

  -- The request with its body.
  abbrev pub post : ClientRequest M → R → Option E → Reply E R
  post rpc_req r none = lib.with_body rpc_req r
  post rpc_req r (some err) = record { response = r; err = some err }

  abbrev pub client_request : String → M → ClientRequest M
  client_request params id = record { jsonrpc = "2.0"; method = c.method; params = params; id = id }

  -- From the identifier on.
  unfoldable pub request : String → S → C → Run S C P E O
  request params state ctx =
      let (state1, id) = c.request_id state in
      let made = post (client_request params id) lib.new_request.response lib.new_request.err in
      send_made made.response state1 ctx made.err

  abbrev pub request_encoded : C → S × String × Option E → Run S C P E O
  request_encoded ctx (state, params, none) = request params state ctx
  request_encoded ctx (state, params, some err) = give_up err none state ctx

  unfoldable pub start : Given I → S → C → Run S C P E O
  start (typed i) state ctx = request_encoded ctx (c.enc ctx i state)
  start nil state ctx = give_up lib.invalid_request none state ctx
  start mistyped state ctx = give_up lib.invalid_request none state ctx

  abbrev pub with_resp : Option P → C → C
  with_resp none ctx = ctx
  with_resp (some p) ctx = lib.with_response p ctx

  -- The deferred function.
  abbrev pub finish : Option (C → Option E → S → S) → Run S C P E O → Run S C P E O
  finish none r = r
  finish (some f) r =
      let ctx' = with_resp r.resp r.ctx in
      record r { ctx = ctx'; state = f ctx' r.reply.err r.state }

  -- `ctx` is the context with the cancel function, which is deferred first and so runs last.
  unfoldable pub endpoint : C → Given I → S → Run S C P E O
  endpoint ctx given state =
      let r = finish c.finalizer (start given state (lib.with_method c.method ctx)) in
      record r { released = cancelled ∷ r.released }

-- DefaultResponseDecoder. `rpc_error` makes a Go error of a JSON-RPC error.
module _ {ℓ} {S C N E O : Type ℓ} (no_response : O) (rpc_error : Error → E)
    (unmarshal : Option String → Reply E O) where
  unfoldable pub default_response_decoder : C → Response N → S → S × Reply E O
  default_response_decoder ctx resp state = elim resp.err [
    | none ↦ (state, unmarshal resp.result)
    | some e ↦ (state, record { response = no_response; err = some (rpc_error e) })
  ]

-- The variable of an autoIncrementID.
unfoldable pub new_auto_increment_id : ℕ → ℕ
new_auto_increment_id init = (init + (2 ^ 64 - 1)) % 2 ^ 64

-- Generate: the new value of the variable is the identifier.
unfoldable pub generate : ℕ → ℕ × ℕ
generate v = let id = (v + 1) % 2 ^ 64 in (id, id)
