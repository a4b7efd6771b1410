-- ===== src/Transport/Fasthttp/Failing.antt =====
-- What a client of transport/fasthttp/server.go gets when something fails.
use yoroi.Prelude.{◌≡◌, ap, ◌∙◌, none, some}
use yoroi.Endpoint.{Reply}
use yoroi.Transport.Http.Server.Encoders.{Described, code_or}
use yoroi.Transport.Fasthttp.{
  RequestCtx, Server, run_all, unless_failed, refuse, encode, respond, handle, Marshaled, body_or,
  default_error_encoder,
}

module _ {ℓ} {S I E O : Type ℓ} (s : Server S I E O) where
  -- The first error on the way of a request.
  pub data Fails (ctx : RequestCtx S) (err : E) : Type ℓ where
    decoding : (s.dec (run_all s.before ctx)).1.err ≡ some err → Fails ctx err
    calling :
        (request : I) (ctx1 : RequestCtx S)
        → s.dec (run_all s.before ctx) ≡ (ctx1, record { response = request; err = none })
        → (s.e request ctx1).1.err ≡ some err
        → Fails ctx err
    encoding :
        (request : I) (ctx1 : RequestCtx S) (response : O) (ctx2 : RequestCtx S)
        → s.dec (run_all s.before ctx) ≡ (ctx1, record { response = request; err = none })
        → s.e request ctx1 ≡ (ctx2, record { response = response; err = none })
        → (s.enc response (run_all s.after ctx2)).1 ≡ some err
        → Fails ctx err

  abbrev after_dec : RequestCtx S × Reply E I → RequestCtx S
  after_dec (ctx, reply) = unless_failed s reply.err (respond s reply.response) ctx

  abbrev after_e : RequestCtx S × Reply E O → RequestCtx S
  after_e (ctx, reply) =
      unless_failed s reply.err (λ x. encode s reply.response (run_all s.after x)) ctx

  -- The request is refused with that error.
  handle-Fails :
      (ctx : RequestCtx S) (err : E)
      → Fails ctx err
      → (x : RequestCtx S) × (handle s ctx ≡ refuse s err x)
  unfolding handle respond encode
  handle-Fails ctx err (decoding e) =
      let (ctx1, reply) = s.dec (run_all s.before ctx) in
      (ctx1, ap (λ o. unless_failed s o (respond s reply.response) ctx1) e)
  handle-Fails ctx err (calling request ctx1 e e') =
      let (ctx2, reply) = s.e request ctx1 in
      (
        ctx2,
        ap after_dec e
            ∙ ap (λ o. unless_failed s o (λ x. encode s reply.response (run_all s.after x)) ctx2)
                e',
      )
  handle-Fails ctx err (encoding request ctx1 response ctx2 e e' e'') =
      let (ctx3, failed) = s.enc response (run_all s.after ctx2) in
      (ctx3, ap after_dec e ∙ ap after_e e' ∙ ap (λ o. unless_failed s o (λ x. x) ctx3) e'')

  module _ (d : Described E) (m : Marshaled E)
      (uses_default : (err : E) (ctx : RequestCtx S)
        → s.error_encoder err ctx ≡ default_error_encoder d m err ctx) where
    -- If decoding, the endpoint or the encoding of its response fails, and the error encoder is the default one,
    -- then before the finalizers run the response has the status of the error, or 500, and as its body only the
    -- JSON form or the text of the error, whatever was set and written before, by the encoding too.
    pub error_replaces :
        (ctx : RequestCtx S) (err : E)
        → Fails ctx err
        → ((handle s ctx).response.status ≡ code_or 500 (d.status_code err))
          × ((handle s ctx).response.body ≡ body_or (m.text_of err) (m.marshal_json err))
    unfolding default_error_encoder
    error_replaces ctx err fails =
        let (x, e) = handle-Fails ctx err fails in
        let refused = e ∙ uses_default err (s.error_handler err x) in
        (
          ap (λ (y : RequestCtx S). y.response.status) refused,
          ap (λ (y : RequestCtx S). y.response.body) refused,
        )
