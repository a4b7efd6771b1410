-- ===== src/Transport/Http/Client/Releasing.antt =====
-- What the endpoint of transport/http/client.go releases.
use yoroi.Prelude.{
  ◌≡◌, refl, ap, inl, inr, Option, none, some, List, [], ◌∷◌, true, false, if◌then◌else◌,
  Bool-cases,
}
use yoroi.Transport.Http.Client.{
  Done, answered, failed, Given, typed, nil, mistyped, Client, Library, cancelled, body_closed, Run,
  run_all, give_up, decode, after_do, send, send_made, request, start, finish, endpoint, close_body,
}

module _ {ℓ} {S C R P I E O : Type ℓ} (lib : Library S C P I E O) (c : Client S C R P I E O) where
  -- Without a usable response the context is cancelled and an error is returned. With one, the
  -- context is cancelled and the body closed, or else the stream is buffered and both are done once
  -- the caller closes the body.
  pub data IsReleased : Run S C P E O → Type ℓ where
    none_usable :
        (r : Run S C P E O) (err : E)
        → r.released ≡ cancelled ∷ []
        → r.reply.err ≡ some err
        → IsReleased r
    used :
        (r : Run S C P E O) (p : P)
        → c.buffered_stream ≡ false
        → r.released ≡ body_closed ∷ cancelled ∷ []
        → r.resp ≡ some p
        → IsReleased r
    left_open :
        (r : Run S C P E O) (p : P)
        → c.buffered_stream ≡ true
        → r.released ≡ []
        → close_body r.released ≡ cancelled ∷ body_closed ∷ []
        → r.resp ≡ some p
        → IsReleased r

  give_up-IsReleased :
      (err : E) (resp : Option P) (state : S) (ctx : C)
      → IsReleased (give_up lib c err resp state ctx)
  unfolding give_up
  give_up-IsReleased err resp state ctx = none_usable _ err refl refl

  decode-IsReleased : (p : P) (state : S) (ctx : C) → IsReleased (decode lib c p state ctx)
  unfolding decode close_body
  decode-IsReleased p state ctx = elim (Bool-cases c.buffered_stream) [
    | inl h ↦
        left_open _ p h (ap (λ b. if b then [] else body_closed ∷ cancelled ∷ []) h)
          (ap (λ b. close_body (if b then [] else body_closed ∷ cancelled ∷ [])) h) refl
    | inr h ↦ used _ p h (ap (λ b. if b then [] else body_closed ∷ cancelled ∷ []) h) refl
  ]

  after_do-IsReleased :
      (d : Done E P) (state : S) (ctx : C) → IsReleased (after_do lib c d state ctx)
  unfolding after_do
  after_do-IsReleased (answered p) state ctx = decode-IsReleased p state ctx
  after_do-IsReleased (failed err resp) state ctx = give_up-IsReleased err resp state ctx

  send_made-IsReleased :
      (err : Option E) (r : R) (state : S) (ctx : C) → IsReleased (send_made lib c err r state ctx)
  unfolding send
  send_made-IsReleased none r state ctx =
      let sent = run_all c.before r (state, ctx) in
      let out = c.client sent.1 r sent.0 in after_do-IsReleased out.1 out.0 sent.1
  send_made-IsReleased (some err) r state ctx = give_up-IsReleased err none state ctx

  start-IsReleased :
      (given : Given I) (state : S) (ctx : C) → IsReleased (start lib c given state ctx)
  unfolding start request
  start-IsReleased (typed i) state ctx =
      let out = c.req ctx i state in send_made-IsReleased out.1.err out.1.response out.0 ctx
  start-IsReleased nil state ctx =
      let out = c.req ctx lib.no_request state in
      send_made-IsReleased out.1.err out.1.response out.0 ctx
  start-IsReleased mistyped state ctx = give_up-IsReleased lib.invalid_request none state ctx

  finish-IsReleased :
      (fs : List (C → Option E → S → S)) (r : Run S C P E O)
      → IsReleased r
      → IsReleased (finish lib c fs r)
  finish-IsReleased [] r h = h
  finish-IsReleased (f ∷ fs) r (none_usable _ err h k) = none_usable _ err h k
  finish-IsReleased (f ∷ fs) r (used _ p b h k) = used _ p b h k
  finish-IsReleased (f ∷ fs) r (left_open _ p b h g k) = left_open _ p b h g k

  -- On every way through the endpoint of a client, its context is cancelled exactly once and the body
  -- of a usable response closed exactly once, by the endpoint or, if the stream is buffered, once the
  -- caller closes the body; without a usable response the endpoint returns an error.
  pub endpoint-IsReleased :
      (ctx : C) (given : Given I) (state : S) → IsReleased (endpoint lib c ctx given state)
  unfolding endpoint
  endpoint-IsReleased ctx given state =
      finish-IsReleased c.finalizer (start lib c given state ctx) (start-IsReleased given state ctx)
