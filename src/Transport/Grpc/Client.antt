-- ===== src/Transport/Grpc/Client.antt =====
-- transport/grpc/client.go: Endpoint. `S` is the rest of the program, `Q` and `P` are requests and
-- responses of gRPC, `I` and `O` those of the user, and `M` is metadata.
pub mod Options
use yoroi.Prelude.{Option, none, some, List, [], ◌∷◌}
use yoroi.Endpoint.{Reply}
use yoroi.Transport.Grpc.Server.{run_finalizers}

-- What Invoke of the connection gives: an error, or the reply with its header and trailer.
pub data Invoked {ℓ} (P E M : Type ℓ) : Type ℓ where
  failed : E → Invoked P E M
  answered : P → M → M → Invoked P E M

-- The `interface{}` that the endpoint is called with.
pub data Given {ℓ} (I : Type ℓ) : Type ℓ where
  typed : I → Given I
  nil : Given I
  mistyped : Given I

-- The zero values, the error for a request of another type, and the calls that make contexts.
pub record Library {ℓ} (C I E O M : Type ℓ) : Type ℓ where
  pub no_request : I
  pub no_response : O
  pub wrong_type : E
  pub no_metadata : M
  pub with_method : C → C
  pub new_outgoing : C → M → C

pub record Client {ℓ} (S C Q P I E O M : Type ℓ) : Type ℓ where
  pub invoke : C → Q → S → S × Invoked P E M
  pub enc : C → I → S → S × Reply E Q
  pub dec : C → P → S → S × Reply E O
  pub before : List (C → M → S → S × C × M)
  pub after : List (C → M → M → S → S × C)
  pub finalizer : List (C → Option E → S → S)

pub record Run {ℓ} (S C E O : Type ℓ) : Type ℓ where
  pub state : S
  pub ctx : C
  pub reply : Reply E O

module _ {ℓ} {S C M : Type ℓ} where
  unfoldable pub run_before : List (C → M → S → S × C × M) → S × C × M → S × C × M
  run_before [] r = r
  run_before (f ∷ fs) (state, ctx, md) = run_before fs (f ctx md state)

  unfoldable pub run_after : List (C → M → M → S → S × C) → M → M → S × C → S × C
  run_after [] header trailer r = r
  run_after (f ∷ fs) header trailer (state, ctx) =
      run_after fs header trailer (f ctx header trailer state)

module _ {ℓ} {S C Q P I E O M : Type ℓ} (lib : Library C I E O M) (c : Client S C Q P I E O M) where
  -- A return with an error.
  abbrev pub give_up : E → S → C → Run S C E O
  give_up err state ctx = record {
    state = state;
    ctx = ctx;
    reply = record { response = lib.no_response; err = some err };
  }

  abbrev pub decode : P → S × C → Run S C E O
  decode p (state, ctx) =
      let (state1, reply) = c.dec ctx p state in record { state = state1; ctx = ctx; reply = reply }

  abbrev pub invoked : C → S × Invoked P E M → Run S C E O
  invoked ctx (state, failed err) = give_up err state ctx
  invoked ctx (state, answered p header trailer) =
      decode p (run_after c.after header trailer (state, ctx))

  abbrev pub send : Q → S × C × M → Run S C E O
  send q (state, ctx, md) =
      let ctx1 = lib.new_outgoing ctx md in invoked ctx1 (c.invoke ctx1 q state)

  abbrev pub unless_failed : Option E → Q → S → C → Run S C E O
  unless_failed none q state ctx = send q (run_before c.before (state, ctx, lib.no_metadata))
  unless_failed (some err) q state ctx = give_up err state ctx

  abbrev pub encoded : C → S × Reply E Q → Run S C E O
  encoded ctx (state, made) = unless_failed made.err made.response state ctx

  abbrev pub request : C → Given I → S → Run S C E O
  request ctx (typed i) state = encoded ctx (c.enc ctx i state)
  request ctx nil state = encoded ctx (c.enc ctx lib.no_request state)
  request ctx mistyped state = give_up lib.wrong_type state ctx

  -- `ctx` is the one with the cancel function, which is called after the finalizers.
  unfoldable pub endpoint : C → Given I → S → Run S C E O
  endpoint ctx given state =
      let r = request (lib.with_method ctx) given state in
      record r { state = run_finalizers c.finalizer r.ctx r.reply.err r.state }
