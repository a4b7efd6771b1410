-- ===== src/Transport/Grpc/Server/Settled.antt =====
-- How ServeGRPC of transport/grpc/server.go ends.
use yoroi.Prelude.{◌≡◌, refl, Option, none, some, if_either}
use yoroi.Transport.Grpc.Server.{
  Library, Server, Run, run_before, run_after, run_finalizers, or_else, unless_failed, succeed,
  with_trailer, with_header, respond, handle, serve_grpc,
}

module _ {ℓ} {S C Q P I E O M : Type ℓ} (lib : Library S C P E M) (s : Server S C Q P I E O M) where
  -- The endpoint and the encoder succeeded and made the response; or some error is returned with no
  -- response, which the error handler was told with the context that is returned.
  pub data IsSettled (r : Run S C P E) : Type ℓ where
    succeeded :
        (ctx ctx' : C) (request : I) (state state' : S)
        → (s.e ctx request state).1.err ≡ none
        → (s.enc ctx' (s.e ctx request state).1.response state').1.err ≡ none
        → r.resp ≡ (s.enc ctx' (s.e ctx request state).1.response state').1.response
        → r.err ≡ none
        → IsSettled r
    refused :
        (err : E) (state : S)
        → r.err ≡ some err
        → r.resp ≡ lib.nil
        → r.state ≡ s.error_handler r.ctx err state
        → IsSettled r

  unless_failed-IsSettled :
      (err : Option E) (next : S → C → Run S C P E) (state : S) (ctx : C)
      → (err ≡ none → IsSettled (next state ctx))
      → IsSettled (unless_failed lib s err next state ctx)
  unless_failed-IsSettled none next state ctx h = h refl
  unless_failed-IsSettled (some err) next state ctx h = refused err state refl refl refl

  module _ (ctx ctx' : C) (request : I) (state state' : S)
      (called : (s.e ctx request state).1.err ≡ none)
      (encoded : (s.enc ctx' (s.e ctx request state).1.response state').1.err ≡ none) where
    abbrev made : P
    made = (s.enc ctx' (s.e ctx request state).1.response state').1.response

    succeed-IsSettled : (st : S) (c : C) → IsSettled (succeed lib s made st c)
    succeed-IsSettled st c = succeeded ctx ctx' request state state' called encoded refl refl

    with_trailer-IsSettled :
        (trailer : M) (st : S) (c : C) → IsSettled (with_trailer lib s made trailer st c)
    with_trailer-IsSettled trailer st c =
        let set = lib.set_trailer c trailer st in
        if_either (λ r. IsSettled r) (lib.is_empty trailer) (succeed lib s made st c)
          (unless_failed lib s set.1 (succeed lib s made) set.0 c) (λ e. succeed-IsSettled st c)
          (λ e.
            unless_failed-IsSettled set.1 (succeed lib s made) set.0 c
              (λ e'. succeed-IsSettled set.0 c))

    with_header-IsSettled :
        (header trailer : M) (st : S) (c : C)
        → IsSettled (with_header lib s made header trailer st c)
    with_header-IsSettled header trailer st c =
        let sent = lib.send_header c header st in
        if_either (λ r. IsSettled r) (lib.is_empty header) (with_trailer lib s made trailer st c)
          (unless_failed lib s sent.1 (with_trailer lib s made trailer) sent.0 c)
          (λ e. with_trailer-IsSettled trailer st c)
          (λ e.
            unless_failed-IsSettled sent.1 (with_trailer lib s made trailer) sent.0 c
              (λ e'. with_trailer-IsSettled trailer sent.0 c))

  respond-IsSettled :
      (request : I) (state : S) (ctx : C) → IsSettled (respond lib s request state ctx)
  respond-IsSettled request state ctx =
      let called = s.e ctx request state in
      unless_failed-IsSettled called.1.err _ called.0 ctx (λ e.
        let after = run_after s.after (called.0, ctx, lib.no_metadata, lib.no_metadata) in
        let encoded = s.enc after.1 called.1.response after.0 in
        unless_failed-IsSettled encoded.1.err _ encoded.0 after.1 (λ e'.
          with_header-IsSettled ctx after.1 request state after.0 e e' after.2 after.3 encoded.0
            after.1))

  handle-IsSettled : (ctx : C) (q : Q) (state : S) → IsSettled (handle lib s ctx q state)
  handle-IsSettled ctx q state =
      let (state1, ctx1) =
        run_before s.before (or_else lib.no_metadata (lib.from_incoming ctx)) (state, ctx) in
      let decoded = s.dec ctx1 q state1 in
      unless_failed-IsSettled decoded.1.err _ decoded.0 ctx1
        (λ e. respond-IsSettled decoded.1.response decoded.0 ctx1)

  -- On every branch ServeGRPC either returns the response that the encoder made of a response of the
  -- endpoint, or an error with no response, which the error handler was told with the context that
  -- is returned; and then all finalizers run in their order, with that context and that error.
  pub serve_grpc-IsSettled :
      (ctx : C) (q : Q) (state : S)
      → (r : Run S C P E) × IsSettled r
        × (serve_grpc lib s ctx q state
            ≡ record r { state = run_finalizers s.finalizer r.ctx r.err r.state })
  unfolding serve_grpc
  serve_grpc-IsSettled ctx q state = (handle lib s ctx q state, handle-IsSettled ctx q state, refl)
