-- ===== src/Transport/Jsonrpc/Server/Replies.antt =====
-- The bodies that ServeHTTP in transport/http/jsonrpc/server.go writes for a request whose parameters its codec
-- reads.
use yoroi.Prelude.{◌≡◌, refl, ap, ◌∙◌, String, Option, none, some, List, [], ◌∷◌, ◌++◌, Assoc}
use yoroi.Endpoint.{Reply}
use yoroi.Transport.Jsonrpc.Error.{Err, Errors, error, error_code}
use yoroi.Transport.Jsonrpc.Server.{
  Library, Request, Response, Op, sets, headed, wrote, encoded, EndpointCodec, Server, Run,
  run_after, refuse, unless_failed, send_result, respond, call_endpoint, dispatch, known, code_or,
  default_error_encoder, set_headers,
}
use yoroi.Transport.Jsonrpc.Server.Answers.{IsResult, encoded_result}

module _ {ℓ} {N : Type ℓ} where
  -- The calls that write to the body.
  abbrev pub bodies : List (Op N) → List (Op N)
  bodies [] = []
  bodies (sets k v ∷ ops) = bodies ops
  bodies (headed c ∷ ops) = bodies ops
  bodies (wrote t ∷ ops) = wrote t ∷ bodies ops
  bodies (encoded res ∷ ops) = encoded res ∷ bodies ops

  bodies-set_headers :
      (h : Assoc String) (ops : List (Op N)) → bodies (set_headers h ops) ≡ bodies ops
  bodies-set_headers [] ops = refl
  bodies-set_headers ((k, v) ∷ h) ops = bodies-set_headers h ops

module _ {ℓ} {S C Q N I O E : Type ℓ} (slib : Library C Q N) (s : Server S C Q N I O E)
    (es : Errors E) (headers : Err E → Assoc String)
    (uses_default : (c : C) (e : Err E) (st : S)
      → (s.error_encoder c e st).1 ≡ default_error_encoder slib es headers c e) where
  -- The response for an error.
  abbrev pub refusal : C → Err E → Response N
  refusal ctx err = record {
    id = known (slib.request_id ctx);
    result = none;
    err = some (record { code = code_or (error_code es err); message = error es err });
  }

  refuse_answer :
      (err : Err E) (r : Run S C N)
      → r.ops ≡ []
      → bodies (refuse s err r).ops ≡ encoded (refusal r.ctx err) ∷ []
  unfolding refuse default_error_encoder
  refuse_answer err r h =
      ap (λ xs. bodies (xs ++ (s.error_encoder r.ctx err r.state).1)) h
      ∙ ap bodies (uses_default r.ctx err r.state)
      ∙ bodies-set_headers (headers err) _

  module _ (ec : EndpointCodec S C I O E) (i : I) (params : String) (result : O → String)
      (dec_params : (ctx : C) (st : S)
        → ec.decode ctx params st ≡ (st, record { response = i; err = none }))
      (enc_result : (ctx : C) (o : O) (st : S) → ec.encode ctx o st ≡ (st, result o, none))
      (good : (o : O) → IsResult slib.is_json (result o)) (no_after : s.after ≡ []) where
    -- From the answer of the decoder on.
    abbrev at_params : Request N → Run S C N → S × Reply (Err E) I → List (Op N)
    at_params req r out =
        bodies
          (unless_failed s out.1.err (call_endpoint slib s ec req out.1.response)
            (record r { state = out.0 })).ops

    pub dispatch_bad :
        (req : Request N) (r : Run S C N) (err : Err E)
        → req.params ≡ params
        → r.ops ≡ []
        → (ec.endpoint r.ctx i r.state).1.err ≡ some err
        → bodies (dispatch slib s (some ec) req r).ops ≡ encoded (refusal r.ctx err) ∷ []
    unfolding dispatch call_endpoint unless_failed
    dispatch_bad req r err e h bad =
        let (st, reply) = ec.endpoint r.ctx i r.state in
        ap (λ p. at_params req r (ec.decode r.ctx p r.state)) e
        ∙ ap (at_params req r) (dec_params r.ctx r.state)
        ∙ ap
            (λ o.
              bodies
                (unless_failed s o (respond slib s ec req reply.response)
                  (record r { state = st })).ops)
            bad
        ∙ refuse_answer err (record r { state = st }) h

    abbrev at_encoded : Request N → Run S C N → S × String × Option (Err E) → List (Op N)
    at_encoded req r out =
        bodies
          (unless_failed s out.2 (send_result slib.is_json req out.1)
            (record r { state = out.0 })).ops

    abbrev at_after : Request N → O → Run S C N → List (Op N)
    at_after req o r = at_encoded req r (ec.encode r.ctx o r.state)

    respond_answer :
        (req : Request N) (o : O) (r : Run S C N)
        → r.ops ≡ []
        → bodies (respond slib s ec req o r).ops
          ≡ encoded (record { id = req.id; result = some (result o); err = none }) ∷ []
    unfolding respond run_after unless_failed send_result
    respond_answer req o r h =
        ap (λ fs. at_after req o (run_after fs r)) no_after
        ∙ ap (at_encoded req r) (enc_result r.ctx o r.state)
        ∙ ap
            (λ xs.
              bodies (xs ++ (send_result slib.is_json req (result o) (record r { ops = [] })).ops))
            h
        ∙ ap bodies (encoded_result slib req.id (result o) (good o))

    pub dispatch_good :
        (req : Request N) (r : Run S C N)
        → req.params ≡ params
        → r.ops ≡ []
        → (ec.endpoint r.ctx i r.state).1.err ≡ none
        → bodies (dispatch slib s (some ec) req r).ops
          ≡ encoded (record {
            id = req.id;
            result = some (result (ec.endpoint r.ctx i r.state).1.response);
            err = none;
          })
            ∷ []
    unfolding dispatch call_endpoint unless_failed
    dispatch_good req r e h good =
        let (st, reply) = ec.endpoint r.ctx i r.state in
        ap (λ p. at_params req r (ec.decode r.ctx p r.state)) e
        ∙ ap (at_params req r) (dec_params r.ctx r.state)
        ∙ ap
            (λ o.
              bodies
                (unless_failed s o (respond slib s ec req reply.response)
                  (record r { state = st })).ops)
            good
        ∙ respond_answer req reply.response (record r { state = st }) h
