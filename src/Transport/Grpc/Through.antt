-- ===== src/Transport/Grpc/Through.antt =====
-- A client of transport/grpc/client.go that calls a server of transport/grpc/server.go.
use yoroi.Prelude.{◌≡◌, refl, ap, ◌∙◌, Option, none, some, [], true, if◌then◌else◌}
use yoroi.Endpoint.{Reply}
use yoroi.Transport.Grpc.Server as Server
use yoroi.Transport.Grpc.Server.{
  Server, Run, or_else, serve_grpc, run_finalizers, unless_failed, succeed, with_trailer,
  with_header, encode, respond, handle,
}
use yoroi.Transport.Grpc.Client as Client
use yoroi.Transport.Grpc.Client.{Client, Invoked, failed, answered, Given, typed, endpoint}

-- What a call of Invoke gives that reaches the server and whose answer arrives: `status` is the error that
-- the client makes of one of the server, and the metadata is what came with the response.
module _ {ℓ} {S C P E M : Type ℓ} (status : E → E) (header trailer : M) where
  abbrev pub arrives : Run S C P E → Option E → S × Invoked P E M
  arrives r none = (r.state, answered r.resp header trailer)
  arrives r (some err) = (r.state, failed (status err))

-- What one side encodes, the other one decodes, and neither touches the rest of the program.
pub record IsCodec {ℓ} {S C Q P I E O M : Type ℓ} (s : Server S C Q P I E O M)
    (c : Client S C Q P I E O M) (q : I → Q) (p : O → P) : Type ℓ where
  pub enc_request :
      (ctx : C) (i : I) (st : S) → c.enc ctx i st ≡ (st, record { response = q i; err = none })
  pub dec_request :
      (ctx : C) (i : I) (st : S) → s.dec ctx (q i) st ≡ (st, record { response = i; err = none })
  pub enc_response :
      (ctx : C) (o : O) (st : S) → s.enc ctx o st ≡ (st, record { response = p o; err = none })
  pub dec_response :
      (ctx : C) (o : O) (st : S) → c.dec ctx (p o) st ≡ (st, record { response = o; err = none })

module _ {ℓ} {S C Q P I E O M : Type ℓ} (slib : Server.Library S C P E M)
    (s : Server S C Q P I E O M) (lib : Client.Library C I E O M) (c : Client S C Q P I E O M)
    (status : E → E) (q : I → Q) (p : O → P) (codec : IsCodec s c q p) (no_after : s.after ≡ [])
    (no_after' : c.after ≡ []) (empty : slib.is_empty slib.no_metadata ≡ true) where
  -- The states and contexts in which Invoke and the endpoint of the server are called.
  abbrev pub outgoing : C → S → S × C × M
  outgoing ctx state = Client.run_before c.before (state, lib.with_method ctx, lib.no_metadata)

  abbrev pub sent : C → S → C
  sent ctx state = lib.new_outgoing (outgoing ctx state).1 (outgoing ctx state).2

  abbrev pub incoming : C → S → S × C
  incoming ctx st =
      Server.run_before s.before (or_else slib.no_metadata (slib.from_incoming ctx)) (st, ctx)

  abbrev pub replied : C → S → I → Reply E O
  replied there st i = let (st', ctx') = incoming there st in (s.e ctx' i st').1

  -- The response, or the status of the error.
  abbrev pub expected : O → Option E → Reply E O
  expected o none = record { response = o; err = none }
  expected o (some err) = record { response = lib.no_response; err = some (status err) }

  handle_good :
      (ctx : C) (i : I) (st : S)
      → let (st1, ctx1) = incoming ctx st in
        (s.e ctx1 i st1).1.err ≡ none
        → handle slib s ctx (q i) st
          ≡ succeed slib s (p (s.e ctx1 i st1).1.response) (s.e ctx1 i st1).0 ctx1
  unfolding Server.run_after
  handle_good ctx i st e =
      let (st1, ctx1) = incoming ctx st in
      let (st2, reply) = s.e ctx1 i st1 in
      ap (λ x. unless_failed slib s x.1.err (respond slib s x.1.response) x.0 ctx1)
        (codec.dec_request ctx1 i st1)
      ∙ ap
          (λ err.
            unless_failed slib s err
              (λ st' c'.
                encode slib s reply.response
                  (Server.run_after s.after (st', c', slib.no_metadata, slib.no_metadata)))
              st2 ctx1)
          e
      ∙ ap
          (λ fs.
            encode slib s reply.response
              (Server.run_after fs (st2, ctx1, slib.no_metadata, slib.no_metadata)))
          no_after
      ∙ ap
          (λ x.
            unless_failed slib s x.1.err
              (with_header slib s x.1.response slib.no_metadata slib.no_metadata) x.0 ctx1)
          (codec.enc_response ctx1 reply.response st2)
      ∙ ap
          (λ b.
            if b
            then with_trailer slib s (p reply.response) slib.no_metadata st2 ctx1
            else unless_failed slib s (slib.send_header ctx1 slib.no_metadata st2).1
                (with_trailer slib s (p reply.response) slib.no_metadata)
                (slib.send_header ctx1 slib.no_metadata st2).0 ctx1)
          empty
      ∙ ap
          (λ b.
            if b
            then succeed slib s (p reply.response) st2 ctx1
            else unless_failed slib s (slib.set_trailer ctx1 slib.no_metadata st2).1
                (succeed slib s (p reply.response)) (slib.set_trailer ctx1 slib.no_metadata st2).0
                ctx1)
          empty

  handle_bad :
      (ctx : C) (i : I) (st : S) (err : E)
      → let (st1, ctx1) = incoming ctx st in
        (s.e ctx1 i st1).1.err ≡ some err → (handle slib s ctx (q i) st).err ≡ some err
  handle_bad ctx i st err e =
      let (st1, ctx1) = incoming ctx st in
      let (st2, reply) = s.e ctx1 i st1 in
      ap (λ x. (unless_failed slib s x.1.err (respond slib s x.1.response) x.0 ctx1).err)
        (codec.dec_request ctx1 i st1)
      ∙ ap
          (λ o.
            (unless_failed slib s o
              (λ st' c'.
                encode slib s reply.response
                  (Server.run_after s.after (st', c', slib.no_metadata, slib.no_metadata)))
              st2 ctx1).err)
          e

  -- What the client makes of the run of the server.
  abbrev received : C → M → M → Run S C P E → Reply E O
  received ctx header trailer r =
      (Client.invoked lib c ctx (arrives status header trailer r r.err)).reply

  received_good :
      (ctx : C) (header trailer : M) (r : Run S C P E) (o : O)
      → r.err ≡ none
      → r.resp ≡ p o
      → received ctx header trailer r ≡ record { response = o; err = none }
  unfolding Client.run_after
  received_good ctx header trailer r o e e' =
      ap (λ err. (Client.invoked lib c ctx (arrives status header trailer r err)).reply) e
      ∙ ap
          (λ fs.
            (Client.decode lib c r.resp (Client.run_after fs header trailer (r.state, ctx))).reply)
          no_after'
      ∙ ap (λ resp. (c.dec ctx resp r.state).1) e'
      ∙ ap (λ x. x.1) (codec.dec_response ctx o r.state)

  received_bad :
      (ctx : C) (header trailer : M) (r : Run S C P E) (err : E)
      → r.err ≡ some err
      → received ctx header trailer r
        ≡ record { response = lib.no_response; err = some (status err) }
  received_bad ctx header trailer r err e =
      ap (λ o. (Client.invoked lib c ctx (arrives status header trailer r o)).reply) e

  -- If each side decodes what the other one encodes, neither has functions after the call, and the
  -- call of Invoke reaches the server and gives what it answers, then the endpoint of the client
  -- answers with the response that the endpoint of the server gives, or with the status of the error
  -- that it gives.
  pub call_through :
      (ctx there : C) (i : I) (state : S) (header trailer : M)
      → let st = (outgoing ctx state).0 in
        let r = serve_grpc slib s there (q i) st in
        c.invoke (sent ctx state) (q i) st ≡ arrives status header trailer r r.err
        → (endpoint lib c ctx (typed i) state).reply
          ≡ expected (replied there st i).response (replied there st i).err
  unfolding endpoint serve_grpc
  call_through ctx there i state header trailer reached =
      ap (λ x. (Client.encoded lib c (lib.with_method ctx) x).reply)
        (codec.enc_request (lib.with_method ctx) i state)
      ∙ ap (λ x. (Client.invoked lib c (sent ctx state) x).reply) reached
      ∙ at (replied there st i).err refl
    where
      st : S
      st = (outgoing ctx state).0

      r : Run S C P E
      r = serve_grpc slib s there (q i) st

      at :
          (o : Option E)
          → (replied there st i).err ≡ o
          → received (sent ctx state) header trailer r ≡ expected (replied there st i).response o
      at none e =
          let good = handle_good there i st e in
          received_good (sent ctx state) header trailer r _ (ap (λ (x : Run S C P E). x.err) good)
            (ap (λ (x : Run S C P E). x.resp) good)
      at (some err) e =
          received_bad (sent ctx state) header trailer r err (handle_bad there i st err e)
