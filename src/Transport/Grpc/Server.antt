-- ===== src/Transport/Grpc/Server.antt =====
-- transport/grpc/server.go: ServeGRPC. `S` is the rest of the program, `Q` and `P` are requests and
-- responses of gRPC, `I` and `O` those of the user, and `M` is metadata.
pub mod Options
pub mod Settled
use yoroi.Prelude.{Option, none, some, List, [], ◌∷◌, Bool, if◌then◌else◌}
use yoroi.Endpoint.{Endpoint, Reply}

-- The calls of grpc and metadata, and the nil response.
pub record Library {ℓ} (S C P E M : Type ℓ) : Type ℓ where
  pub from_incoming : C → Option M
  pub no_metadata : M
  pub is_empty : M → Bool
  pub send_header : C → M → S → S × Option E
  pub set_trailer : C → M → S → S × Option E
  pub nil : P

pub record Server {ℓ} (S C Q P I E O M : Type ℓ) : Type ℓ where
  pub e : Endpoint S C I E O
  pub dec : C → Q → S → S × Reply E I
  pub enc : C → O → S → S × Reply E P
  pub before : List (C → M → S → S × C)
  pub after : List (C → M → M → S → S × C × M × M)
  pub finalizer : List (C → Option E → S → S)
  pub error_handler : C → E → S → S

-- What ServeGRPC returns, and the rest of the program.
pub record Run {ℓ} (S C P E : Type ℓ) : Type ℓ where
  pub state : S
  pub ctx : C
  pub resp : P
  pub err : Option E

module _ {ℓ} {S C M : Type ℓ} where
  unfoldable pub run_before : List (C → M → S → S × C) → M → S × C → S × C
  run_before [] md (state, ctx) = (state, ctx)
  run_before (f ∷ fs) md (state, ctx) = run_before fs md (f ctx md state)

  unfoldable pub run_after : List (C → M → M → S → S × C × M × M) → S × C × M × M → S × C × M × M
  run_after [] r = r
  run_after (f ∷ fs) (state, ctx, header, trailer) = run_after fs (f ctx header trailer state)

module _ {ℓ} {S C E : Type ℓ} where
  unfoldable pub run_finalizers : List (C → Option E → S → S) → C → Option E → S → S
  run_finalizers [] ctx err state = state
  run_finalizers (f ∷ fs) ctx err state = run_finalizers fs ctx err (f ctx err state)

abbrev pub or_else {ℓ} : {A : Type ℓ} → A → Option A → A
or_else a none = a
or_else a (some b) = b

module _ {ℓ} {S C Q P I E O M : Type ℓ} (lib : Library S C P E M) (s : Server S C Q P I E O M) where
  -- `if err != nil` with the error handler and the return.
  abbrev pub unless_failed : Option E → (S → C → Run S C P E) → S → C → Run S C P E
  unless_failed none next state ctx = next state ctx
  unless_failed (some err) next state ctx = record {
    state = s.error_handler ctx err state;
    ctx = ctx;
    resp = lib.nil;
    err = some err;
  }

  abbrev pub succeed : P → S → C → Run S C P E
  succeed p state ctx = record { state = state; ctx = ctx; resp = p; err = none }

  -- From the trailer, the header, the encoder, the endpoint and the decoder on.
  abbrev pub with_trailer : P → M → S → C → Run S C P E
  with_trailer p trailer state ctx =
      if lib.is_empty trailer
      then succeed p state ctx
      else let (state1, err) = lib.set_trailer ctx trailer state in
        unless_failed err (succeed p) state1 ctx

  abbrev pub with_header : P → M → M → S → C → Run S C P E
  with_header p header trailer state ctx =
      if lib.is_empty header
      then with_trailer p trailer state ctx
      else let (state1, err) = lib.send_header ctx header state in
        unless_failed err (with_trailer p trailer) state1 ctx

  abbrev pub encode : O → S × C × M × M → Run S C P E
  encode response (state, ctx, header, trailer) =
      let (state1, reply) = s.enc ctx response state in
      unless_failed reply.err (with_header reply.response header trailer) state1 ctx

  abbrev pub respond : I → S → C → Run S C P E
  respond request state ctx =
      let (state1, reply) = s.e ctx request state in
      unless_failed reply.err
        (λ state2 ctx2.
          encode reply.response
            (run_after s.after (state2, ctx2, lib.no_metadata, lib.no_metadata)))
        state1 ctx

  abbrev pub decode : Q → S × C → Run S C P E
  decode q (state, ctx) =
      let (state1, reply) = s.dec ctx q state in
      unless_failed reply.err (respond reply.response) state1 ctx

  -- All that is not deferred.
  abbrev pub handle : C → Q → S → Run S C P E
  handle ctx q state =
      let md = or_else lib.no_metadata (lib.from_incoming ctx) in
      decode q (run_before s.before md (state, ctx))

  unfoldable pub serve_grpc : C → Q → S → Run S C P E
  serve_grpc ctx q state =
      let r = handle ctx q state in
      record r { state = run_finalizers s.finalizer r.ctx r.err r.state }
