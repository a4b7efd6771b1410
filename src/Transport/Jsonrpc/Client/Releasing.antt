-- ===== src/Transport/Jsonrpc/Client/Releasing.antt =====
-- What the endpoint of transport/http/jsonrpc/client.go does about its context and the body.
use yoroi.Prelude.{
  ◌≡◌, ◌++◌, refl, ap, inl, inr, Option, none, some, List, [], ◌∷◌, true, false, String,
  if◌then◌else◌, Bool-cases,
}
use yoroi.Endpoint.{Reply}
use yoroi.Transport.Http.Client.{
  Done, answered, failed, Given, typed, nil, mistyped, Release, cancelled, body_closed, Run,
}
use yoroi.Transport.Jsonrpc.Server.{Response}
use yoroi.Transport.Jsonrpc.Client.{
  Client, Library, give_up, or_zero, apply_dec, decode, receive, after_do, send, send_made, post,
  run_all, client_request, request, request_encoded, start, finish, endpoint,
}

module _ {ℓ} {S C R P M N I E O : Type ℓ} (lib : Library S C R P M N E O)
    (c : Client S C R P M N I E O) where
  -- What is released, the last one first, after `last`. Without a usable response there is an error;
  -- the body of a usable one is closed, unless the stream is buffered; and with an error the zero value is
  -- returned.
  pub data IsEnded (last : List Release) : Run S C P E O → Type ℓ where
    none_usable :
        (r : Run S C P E O) (err : E)
        → r.released ≡ last
        → r.reply ≡ record { response = lib.no_response; err = some err }
        → IsEnded last r
    used :
        (r : Run S C P E O) (p : P)
        → r.resp ≡ some p
        → c.buffered_stream ≡ false
        → r.released ≡ last ++ body_closed ∷ []
        → ((err : E) → r.reply.err ≡ some err → r.reply.response ≡ lib.no_response)
        → IsEnded last r
    left_open :
        (r : Run S C P E O) (p : P)
        → r.resp ≡ some p
        → c.buffered_stream ≡ true
        → r.released ≡ last
        → ((err : E) → r.reply.err ≡ some err → r.reply.response ≡ lib.no_response)
        → IsEnded last r

  abbrev IsZeroed : Reply E O → Type ℓ
  IsZeroed reply = (err : E) → reply.err ≡ some err → reply.response ≡ lib.no_response

  or_zero-IsZeroed :
      (state : S) (response : O) (o : Option E) → IsZeroed (or_zero lib c state response o).1
  or_zero-IsZeroed state response none err e = absurd (cc e)
  or_zero-IsZeroed state response (some x) err e = refl

  apply_dec-IsZeroed :
      (ctx : C) (state : S) (res : Response N) (o : Option E)
      → IsZeroed (apply_dec lib c ctx state res o).1
  apply_dec-IsZeroed ctx state res none err e =
      let out = c.dec ctx res state in or_zero-IsZeroed out.0 out.1.response out.1.err err e
  apply_dec-IsZeroed ctx state res (some x) err e = refl

  decode-IsZeroed : (ctx : C) (out : S × Reply E (Response N)) → IsZeroed (decode lib c ctx out).1
  decode-IsZeroed ctx (state, res) = apply_dec-IsZeroed ctx state res.response res.err

  receive-IsEnded : (p : P) (state : S) (ctx : C) → IsEnded [] (receive lib c p state ctx)
  unfolding receive
  receive-IsEnded p state ctx =
      let after = run_all c.after p (state, ctx) in
      let zeroed = decode-IsZeroed after.1 (lib.decoded after.2 after.0) in
      elim (Bool-cases c.buffered_stream) [
        | inl h ↦ left_open _ _ refl h (ap (λ b. if b then [] else body_closed ∷ []) h) zeroed
        | inr h ↦ used _ _ refl h (ap (λ b. if b then [] else body_closed ∷ []) h) zeroed
      ]

  give_up-IsEnded :
      (err : E) (resp : Option P) (state : S) (ctx : C)
      → IsEnded [] (give_up lib c err resp state ctx)
  unfolding give_up
  give_up-IsEnded err resp state ctx = none_usable _ err refl refl

  after_do-IsEnded : (d : Done E P) (state : S) (ctx : C) → IsEnded [] (after_do lib c d state ctx)
  unfolding after_do
  after_do-IsEnded (answered p) state ctx = receive-IsEnded p state ctx
  after_do-IsEnded (failed err resp) state ctx = give_up-IsEnded err resp state ctx

  send-IsEnded : (r : R) (state : S) (ctx : C) → IsEnded [] (send lib c r state ctx)
  unfolding send
  send-IsEnded r state ctx =
      let before = run_all c.before r (state, ctx) in
      let out = c.client before.1 before.2 before.0 in after_do-IsEnded out.1 out.0 before.1

  send_made-IsEnded :
      (r : R) (state : S) (ctx : C) (o : Option E) → IsEnded [] (send_made lib c r state ctx o)
  send_made-IsEnded r state ctx none = send-IsEnded r state ctx
  send_made-IsEnded r state ctx (some err) = give_up-IsEnded err none state ctx

  request-IsEnded :
      (params : String) (state : S) (ctx : C) → IsEnded [] (request lib c params state ctx)
  unfolding request
  request-IsEnded params state ctx =
      let out = c.request_id state in
      let made =
        post lib c (client_request lib c params out.1) lib.new_request.response
          lib.new_request.err in
      send_made-IsEnded made.response out.0 ctx made.err

  request_encoded-IsEnded :
      (ctx : C) (out : S × String × Option E) → IsEnded [] (request_encoded lib c ctx out)
  request_encoded-IsEnded ctx (state, params, none) = request-IsEnded params state ctx
  request_encoded-IsEnded ctx (state, params, some err) = give_up-IsEnded err none state ctx

  start-IsEnded : (given : Given I) (state : S) (ctx : C) → IsEnded [] (start lib c given state ctx)
  unfolding start
  start-IsEnded (typed i) state ctx = request_encoded-IsEnded ctx (c.enc ctx i state)
  start-IsEnded nil state ctx = give_up-IsEnded lib.invalid_request none state ctx
  start-IsEnded mistyped state ctx = give_up-IsEnded lib.invalid_request none state ctx

  cancel-IsEnded :
      (r : Run S C P E O)
      → IsEnded [] r
      → IsEnded (cancelled ∷ []) (record r { released = cancelled ∷ r.released })
  cancel-IsEnded r (none_usable _ err h k) = none_usable _ err (ap (λ xs. cancelled ∷ xs) h) k
  cancel-IsEnded r (used _ p e b h z) = used _ p e b (ap (λ xs. cancelled ∷ xs) h) z
  cancel-IsEnded r (left_open _ p e b h z) = left_open _ p e b (ap (λ xs. cancelled ∷ xs) h) z

  finish-IsEnded :
      (f : Option (C → Option E → S → S)) (r : Run S C P E O)
      → IsEnded [] r
      → IsEnded [] (finish lib c f r)
  finish-IsEnded none r h = h
  finish-IsEnded (some f) r (none_usable _ err h k) = none_usable _ err h k
  finish-IsEnded (some f) r (used _ p e b h z) = used _ p e b h z
  finish-IsEnded (some f) r (left_open _ p e b h z) = left_open _ p e b h z

  -- On every way through the endpoint of a JSON-RPC client, its context is cancelled once, at the end. The
  -- body of a usable response is closed before that, but if the stream is buffered it is left open, and
  -- the caller gets it with a cancelled context. Without a usable response an error is returned, and
  -- with an error always the zero value.
  pub endpoint-IsEnded :
      (ctx : C) (given : Given I) (state : S)
      → IsEnded (cancelled ∷ []) (endpoint lib c ctx given state)
  unfolding endpoint
  endpoint-IsEnded ctx given state =
      let r = start lib c given state (lib.with_method c.method ctx) in
      cancel-IsEnded (finish lib c c.finalizer r)
        (finish-IsEnded c.finalizer r (start-IsEnded given state (lib.with_method c.method ctx)))
