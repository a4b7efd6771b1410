-- ===== src/Transport/Jsonrpc/Server/Answers.antt =====
-- The answers of ServeHTTP in transport/http/jsonrpc/server.go.
use yoroi.Prelude.{
  ◌≡◌, refl, sym, ap, ◌∙◌, subst, String, Option, none, some, List, [], ◌∷◌, ◌++◌, str_eq, Bool,
  true, false, if◌then◌else◌, Assoc, lookup,
}
use yoroi.Transport.Jsonrpc.Error.{Error, Err, Errors}
use yoroi.Transport.Jsonrpc.Server.Runs.{started, informed, taken, ops-taken, served}
use yoroi.Transport.Jsonrpc.Server.{
  Request, Response, Op, sets, headed, wrote, encoded, EndpointCodec, Server, Library, Run,
  run_before_codec, run_after, refuse, unless_failed, send_result, respond, call_endpoint, dispatch,
  serve_http, result_field, encode_response, set_headers, known, default_error_encoder,
}

module _ {ℓ} {N : Type ℓ} where
  -- The responses among the calls.
  abbrev pub responses : List (Op N) → List (Response N)
  responses [] = []
  responses (sets k v ∷ ops) = responses ops
  responses (headed c ∷ ops) = responses ops
  responses (wrote t ∷ ops) = responses ops
  responses (encoded res ∷ ops) = res ∷ responses ops

  pub responses-append : (xs ys : List (Op N)) → responses (xs ++ ys) ≡ responses xs ++ responses ys
  responses-append [] ys = refl
  responses-append (sets k v ∷ xs) ys = responses-append xs ys
  responses-append (headed c ∷ xs) ys = responses-append xs ys
  responses-append (wrote t ∷ xs) ys = responses-append xs ys
  responses-append (encoded res ∷ xs) ys = ap (◌∷◌ res) (responses-append xs ys)

  pub responses-set_headers :
      (h : Assoc String) (ops : List (Op N)) → responses (set_headers h ops) ≡ responses ops
  responses-set_headers [] ops = refl
  responses-set_headers ((k, v) ∷ h) ops = responses-set_headers h ops

  -- Either a result or an error, as JSON-RPC asks.
  pub data IsComplete : Response N → Type ℓ where
    result :
        (id : Option N) (t : String) → IsComplete (record { id = id; result = some t; err = none })
    failure :
        (id : Option N) (e : Error) → IsComplete (record { id = id; result = none; err = some e })

  -- The calls hold one response, which is complete and for the given identifier.
  abbrev pub IsAnswer : Option N → List (Op N) → Type ℓ
  IsAnswer id ops = (res : Response N) × (responses ops ≡ res ∷ []) × IsComplete res × (res.id ≡ id)

-- A raw result that the JSON encoder writes: not empty, and JSON.
abbrev pub IsResult : (String → Bool) → String → Type 0
IsResult is_json t = (str_eq t "" ≡ false) × (is_json t ≡ true)

-- The encoder of a codec gives such a result, or an error.
module _ {ℓ} {S C I O E : Type ℓ} where
  abbrev pub IsEncoder : (String → Bool) → EndpointCodec S C I O E → Type ℓ
  IsEncoder is_json ec =
      (c : C) (o : O) (st : S) → (ec.encode c o st).2 ≡ none → IsResult is_json (ec.encode c o st).1

module _ {ℓ} {C Q N : Type ℓ} (lib : Library C Q N) where
  pub encoded_result :
      (id : Option N) (t : String)
      → IsResult lib.is_json t
      → encode_response lib.is_json id (result_field t)
        ≡ encoded (record { id = id; result = some t; err = none }) ∷ []
  encoded_result id t (nonempty, valid) =
      ap (λ b. encode_response lib.is_json id (if b then none else some t)) nonempty
      ∙ ap (λ b. if b then encoded (record { id = id; result = some t; err = none }) ∷ [] else [])
          valid

module _ {ℓ} {S C Q N I O E : Type ℓ} (lib : Library C Q N) (s : Server S C Q N I O E)
    (es : Errors E) (headers : Err E → Assoc String)
    (uses_default : (c : C) (e : Err E) (st : S)
      → (s.error_encoder c e st).1 ≡ default_error_encoder lib es headers c e) where
  refuse-IsAnswer :
      (err : Err E) (id : Option N) (r : Run S C N)
      → responses r.ops ≡ []
      → known (lib.request_id r.ctx) ≡ id
      → IsAnswer id (refuse s err r).ops
  unfolding refuse default_error_encoder
  refuse-IsAnswer err id r h k = (
    _,
    responses-append r.ops _
        ∙ ap (λ xs. xs ++ responses (s.error_encoder r.ctx err r.state).1) h
        ∙ ap responses (uses_default r.ctx err r.state)
        ∙ responses-set_headers (headers err) _,
    failure _ _,
    k,
  )

  unless_failed-IsAnswer :
      (err : Option (Err E)) (id : Option N) (next : Run S C N → Run S C N) (r : Run S C N)
      → responses r.ops ≡ []
      → known (lib.request_id r.ctx) ≡ id
      → (err ≡ none → IsAnswer id (next r).ops)
      → IsAnswer id (unless_failed s err next r).ops
  unfolding unless_failed
  unless_failed-IsAnswer none id next r h k a = a refl
  unless_failed-IsAnswer (some err) id next r h k a = refuse-IsAnswer err id r h k

  send_result-IsAnswer :
      (req : Request N) (t : String) (r : Run S C N)
      → responses r.ops ≡ []
      → IsResult lib.is_json t
      → IsAnswer req.id (send_result lib.is_json req t r).ops
  unfolding send_result
  send_result-IsAnswer req t r h good = (
    _,
    responses-append r.ops _
        ∙ ap (λ xs. xs ++ responses (encode_response lib.is_json req.id (result_field t))) h
        ∙ ap responses (encoded_result lib req.id t good),
    result _ _,
    refl,
  )

  module _
      (after_keeps : (r : Run S C N)
        → ((run_after s.after r).ops ≡ r.ops)
          × (known (lib.request_id (run_after s.after r).ctx) ≡ known (lib.request_id r.ctx))) where
    respond-IsAnswer :
        (ec : EndpointCodec S C I O E) (req : Request N) (o : O) (r : Run S C N)
        → IsEncoder lib.is_json ec
        → responses r.ops ≡ []
        → known (lib.request_id r.ctx) ≡ req.id
        → IsAnswer req.id (respond lib s ec req o r).ops
    unfolding respond
    respond-IsAnswer ec req o r good h k =
        let r1 = run_after s.after r in
        let out = ec.encode r1.ctx o r1.state in
        let r' = record r1 { state = out.0 } in
        let empty = ap responses (after_keeps r).0 ∙ h in
        unless_failed-IsAnswer out.2 req.id (send_result lib.is_json req out.1) r' empty
          ((after_keeps r).1 ∙ k)
          (λ e. send_result-IsAnswer req out.1 r' empty (good r1.ctx o r1.state e))

    call_endpoint-IsAnswer :
        (ec : EndpointCodec S C I O E) (req : Request N) (i : I) (r : Run S C N)
        → IsEncoder lib.is_json ec
        → responses r.ops ≡ []
        → known (lib.request_id r.ctx) ≡ req.id
        → IsAnswer req.id (call_endpoint lib s ec req i r).ops
    unfolding call_endpoint
    call_endpoint-IsAnswer ec req i r good h k =
        let out = ec.endpoint r.ctx i r.state in
        let r' = record r { state = out.0 } in
        unless_failed-IsAnswer out.1.err req.id (respond lib s ec req out.1.response) r' h k
          (λ _. respond-IsAnswer ec req out.1.response r' good h k)

    dispatch-IsAnswer :
        (found : Option (EndpointCodec S C I O E)) (req : Request N) (r : Run S C N)
        → ((ec : EndpointCodec S C I O E) → found ≡ some ec → IsEncoder lib.is_json ec)
        → responses r.ops ≡ []
        → known (lib.request_id r.ctx) ≡ req.id
        → IsAnswer req.id (dispatch lib s found req r).ops
    unfolding dispatch
    dispatch-IsAnswer none req r good h k = refuse-IsAnswer _ req.id r h k
    dispatch-IsAnswer (some ec) req r good h k =
        let out = ec.decode r.ctx req.params r.state in
        let r' = record r { state = out.0 } in
        unless_failed-IsAnswer out.1.err req.id (call_endpoint lib s ec req out.1.response) r' h k
          (λ _. call_endpoint-IsAnswer ec req out.1.response r' (good ec refl) h k)

    -- A POST request whose body, as the functions before leave it, is a JSON-RPC request gets one response,
    -- with its identifier and either a result or an error, whether its method is unknown or the decoder, the
    -- endpoint or the encoder fails, if the server has the default error encoder, the encoder of the method
    -- gives an error or a result that is not empty and JSON, the functions between the body and the endpoint
    -- and those after it leave the identifier in the context, and those after it write nothing.
    pub serve_http-IsAnswer :
        (ctx : C) (q : Q) (state : S) (req : Request N)
        → ((id : Option N) (c : C) → lib.request_id (lib.with_id id c) ≡ some id)
        → ((m : String) (c : C) → lib.request_id (lib.with_method m c) ≡ lib.request_id c)
        → ((q' : Q) (r : Run S C N)
            → lib.request_id (run_before_codec s.before_codec q' req r).0.ctx
              ≡ lib.request_id r.ctx)
        → ((ec : EndpointCodec S C I O E)
            → lookup req.method s.ecm ≡ some ec
            → IsEncoder lib.is_json ec)
        → lib.http_method q ≡ "POST"
        → lib.decoded (started lib s ctx q state).1 ≡ some req
        → IsAnswer req.id (serve_http lib s ctx q state).ops
    serve_http-IsAnswer ctx q state req id_kept method_kept before_keeps good post decoded =
        let (r, q') = started lib s ctx q state in
        subst (IsAnswer req.id) (sym (served lib s ctx q req state post decoded)) (
          dispatch-IsAnswer (lookup req.method s.ecm) req (taken lib s ctx q req state) good
            (ap responses (ops-taken lib s ctx q req state))
            (ap known (
              before_keeps (lib.body_read q') (informed lib s req r)
              ∙ method_kept req.method _
              ∙ id_kept req.id r.ctx)))
