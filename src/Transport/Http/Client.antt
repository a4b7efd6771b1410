-- ===== src/Transport/Http/Client.antt =====
-- transport/http/client.go: Endpoint. `R` stands for pointers to HTTP requests and `P` for those to
-- responses; `S` is the rest of the program, with what they point to.
pub mod Options
pub mod Releasing
use yoroi.Prelude.{ℕ, String, Option, none, some, List, [], ◌∷◌, Bool, true, false, if◌then◌else◌}
use yoroi.Endpoint.{Reply}

-- What `Do` of the client returns; with an error there may be a response, whose body is closed already.
pub data Done {ℓ} (E P : Type ℓ) : Type ℓ where
  answered : P → Done E P
  failed : E → Option P → Done E P

-- The `interface{}` that the endpoint is called with.
pub data Given {ℓ} (I : Type ℓ) : Type ℓ where
  typed : I → Given I
  nil : Given I
  mistyped : Given I

pub record Client {ℓ} (S C R P I E O : Type ℓ) : Type ℓ where
  pub req : C → I → S → S × Reply E R
  pub client : C → R → S → S × Done E P
  pub dec : C → P → S → S × Reply E O
  pub before : List (C → R → S → S × C)
  pub after : List (C → P → S → S × C)
  pub finalizer : List (C → Option E → S → S)
  pub buffered_stream : Bool

-- The zero values of the request and the response, transport.InvalidRequest, and the context with the
-- headers and the size that a response then has.
pub record Library {ℓ} (S C P I E O : Type ℓ) : Type ℓ where
  pub no_request : I
  pub no_response : O
  pub invalid_request : E
  pub with_response : P → S → C → C

-- What is done about the context and the body of the response.
pub data Release : Type 0 where
  cancelled : Release
  body_closed : Release

-- The variables of the endpoint. `released` has the last one first.
pub record Run {ℓ} (S C P E O : Type ℓ) : Type ℓ where
  pub state : S
  pub ctx : C
  pub resp : Option P
  pub released : List Release
  pub reply : Reply E O

module _ {ℓ} {S C X : Type ℓ} where
  -- The loops over `before` and `after`.
  unfoldable pub run_all : List (C → X → S → S × C) → X → S × C → S × C
  run_all [] x (state, ctx) = (state, ctx)
  run_all (f ∷ fs) x (state, ctx) = run_all fs x (f ctx x state)

module _ {ℓ} {S C E : Type ℓ} where
  unfoldable pub run_finalizers : List (C → Option E → S → S) → C → Option E → S → S
  run_finalizers [] ctx err state = state
  run_finalizers (f ∷ fs) ctx err state = run_finalizers fs ctx err (f ctx err state)

module _ {ℓ} {S C R P I E O : Type ℓ} (lib : Library S C P I E O) (c : Client S C R P I E O) where
  -- `cancel` and a return with an error.
  unfoldable pub give_up : E → Option P → S → C → Run S C P E O
  give_up err resp state ctx = record {
    state = state;
    ctx = ctx;
    resp = resp;
    released = cancelled ∷ [];
    reply = record { response = lib.no_response; err = some err };
  }

  -- From the response on. Deferred calls run in the reverse order.
  unfoldable pub decode : P → S → C → Run S C P E O
  decode p state ctx =
      let (state1, ctx1) = run_all c.after p (state, ctx) in
      let (state2, reply) = c.dec ctx1 p state1 in
      record {
        state = state2;
        ctx = ctx1;
        resp = some p;
        released = if c.buffered_stream then [] else body_closed ∷ cancelled ∷ [];
        reply = reply;
      }

  unfoldable pub after_do : Done E P → S → C → Run S C P E O
  after_do (failed err resp) state ctx = give_up err resp state ctx
  after_do (answered p) state ctx = decode p state ctx

  unfoldable pub send : R → S → C → Run S C P E O
  send r state ctx =
      let (state1, ctx1) = run_all c.before r (state, ctx) in
      let (state2, done) = c.client ctx1 r state1 in after_do done state2 ctx1

  abbrev pub send_made : Option E → R → S → C → Run S C P E O
  send_made none r state ctx = send r state ctx
  send_made (some err) r state ctx = give_up err none state ctx

  unfoldable pub request : I → S → C → Run S C P E O
  request i state ctx =
      let (state1, made) = c.req ctx i state in send_made made.err made.response state1 ctx

  unfoldable pub start : Given I → S → C → Run S C P E O
  start (typed i) state ctx = request i state ctx
  start nil state ctx = request lib.no_request state ctx
  start mistyped state ctx = give_up lib.invalid_request none state ctx

  abbrev pub with_resp : Option P → S → C → C
  with_resp none state ctx = ctx
  with_resp (some p) state ctx = lib.with_response p state ctx

  -- The deferred function; nothing is deferred without finalizers.
  abbrev pub finish : List (C → Option E → S → S) → Run S C P E O → Run S C P E O
  finish [] r = r
  finish (f ∷ fs) r =
      let ctx' = with_resp r.resp r.state r.ctx in
      record r { ctx = ctx'; state = run_finalizers (f ∷ fs) ctx' r.reply.err r.state }

  -- The finalizers are deferred first, so they run last; `ctx` is the one with the cancel function.
  unfoldable pub endpoint : C → Given I → S → Run S C P E O
  endpoint ctx given state = finish c.finalizer (start given state ctx)

-- bodyWithCancel.Close
unfoldable pub close_body : List Release → List Release
close_body released = cancelled ∷ body_closed ∷ released
