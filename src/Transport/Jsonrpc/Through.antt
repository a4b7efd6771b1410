-- ===== src/Transport/Jsonrpc/Through.antt =====
-- A call of the client of transport/http/jsonrpc/client.go that reaches the server of
-- transport/http/jsonrpc/server.go.
use yoroi.Prelude.{◌≡◌, refl, ap, ◌∙◌, String, Option, none, some, [], ◌∷◌, Assoc, lookup}
use yoroi.Endpoint.{Reply}
use yoroi.Transport.Http.Client.{Done, answered, Given, typed}
use yoroi.Transport.Http.Client as HttpClient
use yoroi.Transport.Jsonrpc.Error.{Error, Err, Errors, error, error_code}
use yoroi.Transport.Jsonrpc.Server as Server
use yoroi.Transport.Jsonrpc.Server.{
  Request, Response, Op, encoded, EndpointCodec, Server, Run, dispatch, serve_http, code_or,
  default_error_encoder,
}
use yoroi.Transport.Jsonrpc.Server.Runs.{started, taken, ops-taken, served}
use yoroi.Transport.Jsonrpc.Server.Answers.{IsResult}
use yoroi.Transport.Jsonrpc.Server.Replies.{bodies, dispatch_bad, dispatch_good}
use yoroi.Transport.Jsonrpc.Client as Client
use yoroi.Transport.Jsonrpc.Client.{
  Client, client_request, endpoint, default_response_decoder, run_all,
}

-- What encoding/json reads of the parts of a response that it has written: of an identifier, a raw result and
-- an error.
pub record Reading {ℓ} (N : Type ℓ) : Type ℓ where
  pub read_id : Option N → Option N
  pub read_result : String → String
  pub read_error : Error → Error

module _ {ℓ} {N : Type ℓ} (reading : Reading N) where
  abbrev pub read_response : Response N → Response N
  read_response res = record {
    id = reading.read_id res.id;
    result = elim res.result [ none ↦ none | some t ↦ some (reading.read_result t) ];
    err = elim res.err [ none ↦ none | some e ↦ some (reading.read_error e) ];
  }

-- A client with the default decoder, up to the response.
module _ {ℓ} {S C R P M N I O F : Type ℓ} (lib : Client.Library S C R P M N F O)
    (c : Client S C R P M N I F O) (rpc_error : Error → F) (unmarshal : Option String → Reply F O)
    (uses_decoder : (x : C) (res : Response N) (st : S)
      → c.dec x res st
        ≡ default_response_decoder lib.no_response rpc_error unmarshal x res st) where
  told_good :
      (ctx : C) (st : S) (res : Response N) (o : O)
      → res.err ≡ none
      → unmarshal res.result ≡ record { response = o; err = none }
      → (Client.decode lib c ctx (st, record { response = res; err = none })).1
        ≡ record { response = o; err = none }
  unfolding default_response_decoder
  told_good ctx st res o h e =
      ap (λ x. (Client.or_zero lib c x.0 x.1.response x.1.err).1) (uses_decoder ctx res st)
      ∙ ap
          (λ (err : Option Error).
            let x =
              default_response_decoder lib.no_response rpc_error unmarshal ctx
                (record res { err = err }) st in
            (Client.or_zero lib c x.0 x.1.response x.1.err).1)
          h
      ∙ ap (λ (r : Reply F O). (Client.or_zero lib c st r.response r.err).1) e

  told_bad :
      (ctx : C) (st : S) (res : Response N) (e : Error)
      → res.err ≡ some e
      → (Client.decode lib c ctx (st, record { response = res; err = none })).1
        ≡ record { response = lib.no_response; err = some (rpc_error e) }
  unfolding default_response_decoder
  told_bad ctx st res e h =
      ap (λ x. (Client.or_zero lib c x.0 x.1.response x.1.err).1) (uses_decoder ctx res st)
      ∙ ap
          (λ (err : Option Error).
            let x =
              default_response_decoder lib.no_response rpc_error unmarshal ctx
                (record res { err = err }) st in
            (Client.or_zero lib c x.0 x.1.response x.1.err).1)
          h

  reply-finish :
      (f : Option (C → Option F → S → S)) (r : HttpClient.Run S C P F O)
      → (Client.finish lib c f r).reply ≡ r.reply
  reply-finish none r = refl
  reply-finish (some f) r = refl

  -- The request that the client makes, the state, context and request that it calls `Do` with, and those
  -- that the functions after leave.
  abbrev pub made : String → S → Reply F R
  made params st =
      Client.post lib c (client_request lib c params (c.request_id st).1) lib.new_request.response
        lib.new_request.err

  abbrev pub outgoing : C → S → R → S × C × R
  outgoing ctx st r = run_all c.before r ((c.request_id st).0, lib.with_method c.method ctx)

  abbrev at_answer : S × Done F P → C → Reply F O
  at_answer (st, done) ctx = (Client.after_do lib c done st ctx).reply

  endpoint_told :
      (ctx : C) (i : I) (state st : S) (params : String) (r : R) (st' : S) (p : P)
      → c.enc (lib.with_method c.method ctx) i state ≡ (st, params, none)
      → made params st ≡ record { response = r; err = none }
      → let (st1, ctx1, r1) = outgoing ctx st r in
        c.client ctx1 r1 st1 ≡ (st', answered p)
        → let (st2, ctx2, p2) = run_all c.after p (st', ctx1) in
          (endpoint lib c ctx (typed i) state).reply
          ≡ (Client.decode lib c ctx2 (lib.decoded p2 st2)).1
  unfolding endpoint Client.request Client.send Client.receive Client.start Client.after_do
  endpoint_told ctx i state st params r st' p e m d =
      let ctx0 = lib.with_method c.method ctx in
      let (st1, ctx1, r1) = outgoing ctx st r in
      reply-finish c.finalizer (Client.start lib c (typed i) state ctx0)
      ∙ ap (λ x. (Client.request_encoded lib c ctx0 x).reply) e
      ∙ ap
          (λ (x : Reply F R).
            (Client.send_made lib c x.response (c.request_id st).0 ctx0 x.err).reply)
          m
      ∙ ap (λ x. at_answer x ctx1) d

  module _ {Q J U E : Type ℓ} (slib : Server.Library C Q N) (s : Server S C Q N J U E)
      (es : Errors E) (headers : Err E → Assoc String)
      (uses_default : (x : C) (e : Err E) (st : S)
        → (s.error_encoder x e st).1 ≡ default_error_encoder slib es headers x e)
      (ec : EndpointCodec S C J U E) (found : lookup c.method s.ecm ≡ some ec) (result : U → String)
      (enc_result : (x : C) (u : U) (st : S) → ec.encode x u st ≡ (st, result u, none))
      (good : (u : U) → IsResult slib.is_json (result u)) (no_after : s.after ≡ [])
      (reading : Reading N) (value : U → O)
      (unmarshalled : (u : U)
        → unmarshal (some (reading.read_result (result u)))
          ≡ record { response = value u; err = none }) where
    -- The value of the response, or the code and the text of the error.
    abbrev pub expected : U → Option (Err E) → Reply F O
    expected u none = record { response = value u; err = none }
    expected u (some err) = record {
      response = lib.no_response;
      err = some (
          rpc_error (
            reading.read_error
              (record { code = code_or (error_code es err); message = error es err })));
    }

    -- What the endpoint of the server gives for a request that is decoded to `req` and its parameters to `j`.
    abbrev pub replied : C → Q → Request N → J → S → Reply (Err E) U
    replied there q req j st =
        let r = taken slib s there q req st in (ec.endpoint r.ctx j r.state).1

    -- If the client makes its request; if what `Do` is given reaches the server as a POST request for the
    -- method of the client, whose body is decoded after the functions before and has parameters that the codec
    -- of the method reads, and `Do` gets the answer; if the server has the default error encoder and no
    -- functions after the endpoint, and the codec encodes every response, as JSON that is not empty; and if the
    -- client has the default decoder, which reads the results, and its functions after leave an answer that is
    -- one JSON-RPC response and no other text, so that it is read: then the endpoint of the client answers
    -- with the value of the response that the endpoint of the server gives, or with the JSON-RPC error
    -- that is read of the code and the text of its error.
    pub call_answered :
        (ctx there : C) (i : I) (state st : S) (params : String) (r : R) (q : Q) (req : Request N)
        (j : J) (p : P)
        → c.enc (lib.with_method c.method ctx) i state ≡ (st, params, none)
        → made params st ≡ record { response = r; err = none }
        → let (st1, ctx1, r1) = outgoing ctx st r in
          let run = serve_http slib s there q st1 in
          c.client ctx1 r1 st1 ≡ (run.state, answered p)
          → slib.http_method q ≡ "POST"
          → slib.decoded (started slib s there q st1).1 ≡ some req
          → req.method ≡ c.method
          → ((x : C) (st' : S)
              → ec.decode x req.params st' ≡ (st', record { response = j; err = none }))
          → ((res : Response N)
              → bodies run.ops ≡ encoded res ∷ []
              → let (st2, ctx2, p2) = run_all c.after p (run.state, ctx1) in
                lib.decoded p2 st2
                ≡ (st2, record { response = read_response reading res; err = none }))
          → (endpoint lib c ctx (typed i) state).reply
            ≡ expected (replied there q req j st1).response (replied there q req j st1).err
    call_answered ctx there i state st params r q req j p e m d post dec same read arrives =
        at (replied there q req j st1).err refl
      where
        st1 : S
        st1 = (outgoing ctx st r).0

        run : Run S C N
        run = serve_http slib s there q st1

        looked : Run S C N
        looked = taken slib s there q req st1

        through :
            (res : Response N) (reply : Reply F O)
            → bodies (dispatch slib s (some ec) req looked).ops ≡ encoded res ∷ []
            → ((x : C) (st' : S)
                → (Client.decode lib c x
                    (st', record { response = read_response reading res; err = none })).1
                  ≡ reply)
            → (endpoint lib c ctx (typed i) state).reply ≡ reply
        through res reply one told =
            let (st2, ctx2, p2) = run_all c.after p (run.state, (outgoing ctx st r).1) in
            endpoint_told ctx i state st params r run.state p e m d
            ∙ ap (λ x. (Client.decode lib c ctx2 x).1)
                (arrives res (
                  ap bodies (served slib s there q req st1 post dec)
                  ∙ ap (λ n. bodies (dispatch slib s (lookup n s.ecm) req looked).ops) same
                  ∙ ap (λ o. bodies (dispatch slib s o req looked).ops) found
                  ∙ one))
            ∙ told ctx2 st2

        at :
            (o : Option (Err E))
            → (replied there q req j st1).err ≡ o
            → (endpoint lib c ctx (typed i) state).reply
              ≡ expected (replied there q req j st1).response o
        at none h =
            through _ _
              (dispatch_good slib s es headers uses_default ec j req.params result read enc_result
                good no_after req looked refl (ops-taken slib s there q req st1) h)
              (λ x st'.
                told_good x st' _ _ refl (unmarshalled (replied there q req j st1).response))
        at (some err) h =
            through _ _
              (dispatch_bad slib s es headers uses_default ec j req.params result read enc_result
                good no_after req looked err refl (ops-taken slib s there q req st1) h)
              (λ x st'. told_bad x st' _ _ refl)
