-- ===== src/Transport/Http/Server.antt =====
-- transport/http/server.go: ServeHTTP. What the functions given to a server do to the rest of the
-- program is their effect on `S`; what they do to the response writer is a list of calls.
pub mod Finalizing
pub mod Handling
pub mod Encoders
pub mod Options
use yoroi.Prelude.{ℕ, String, Option, none, some, List, [], ◌∷◌, Bool, true, false}
use yoroi.Endpoint.{Endpoint, Reply}
use yoroi.Transport.Http.InterceptingWriter.{Call, InterceptingWriter, intercept, call}

-- Calls of a response writer; `header` calls are `Set` and `Add` on the map that `Header` returns.
pub data Op : Type 0 where
  sets : String → String → Op
  adds : String → String → Op
  calls : Call → Op

-- The `w` of ServeHTTP, with or without the intercepting writer.
pub data Target : Type 0 where
  plain : List Call → Target
  intercepted : InterceptingWriter → Target

-- The calls on headers are kept with the last one first.
pub record Writer : Type 0 where
  pub header : List Op
  pub target : Target

abbrev pub call_target : Target → Call → Target
call_target (plain cs) c = plain (c ∷ cs)
call_target (intercepted w) c = intercepted (call w c)

abbrev pub apply_op : Writer → Op → Writer
apply_op w (sets k v) = record w { header = sets k v ∷ w.header }
apply_op w (adds k v) = record w { header = adds k v ∷ w.header }
apply_op w (calls c) = record w { target = call_target w.target c }

unfoldable pub apply : Writer → List Op → Writer
apply w [] = w
apply w (op ∷ ops) = apply (apply_op w op) ops

-- A pointer `Q` to a request, whose fields are in `S`, a user's request `I` and response `O`.
pub record Server {ℓ} (S C Q I E O : Type ℓ) : Type ℓ where
  pub e : Endpoint S C I E O
  pub dec : C → Q → S → S × Reply E I
  pub enc : C → O → S → S × List Op × Option E
  pub before : List (C → Q → S → S × C)
  pub after : List (C → S → S × List Op × C)
  pub error_encoder : C → E → S → S × List Op
  pub error_handler : C → E → S → S
  pub finalizer : List (C → ℕ → Q → S → S)

-- context.WithValue under the keys of the response's headers and size
pub record Keys {ℓ} (C : Type ℓ) : Type ℓ where
  pub with_headers : List Op → C → C
  pub with_size : ℕ → C → C

-- The variables of ServeHTTP, and the rest of the program.
pub record Run {ℓ} (S C : Type ℓ) : Type ℓ where
  pub state : S
  pub ctx : C
  pub w : Writer

module _ {ℓ} {S C Q : Type ℓ} where
  unfoldable pub run_before : List (C → Q → S → S × C) → Q → Run S C → Run S C
  run_before [] q r = r
  run_before (f ∷ fs) q r =
      let (state', ctx') = f r.ctx q r.state in
      run_before fs q (record r { state = state'; ctx = ctx' })

  unfoldable pub run_finalizers : List (C → ℕ → Q → S → S) → C → ℕ → Q → S → S
  run_finalizers [] ctx code q state = state
  run_finalizers (f ∷ fs) ctx code q state = run_finalizers fs ctx code q (f ctx code q state)

  abbrev pub target_for : List (C → ℕ → Q → S → S) → Target
  target_for [] = plain []
  target_for (f ∷ fs) = intercepted intercept

module _ {ℓ} {S C : Type ℓ} where
  unfoldable pub run_after : List (C → S → S × List Op × C) → Run S C → Run S C
  run_after [] r = r
  run_after (f ∷ fs) r =
      let (state', ops, ctx') = f r.ctx r.state in
      run_after fs (record { state = state'; ctx = ctx'; w = apply r.w ops })

module _ {ℓ} {S C Q I E O : Type ℓ} where
  -- The error handler, then the error encoder.
  unfoldable pub refuse : Server S C Q I E O → E → Run S C → Run S C
  refuse s err r =
      let (state', ops) = s.error_encoder r.ctx err (s.error_handler r.ctx err r.state) in
      record r { state = state'; w = apply r.w ops }

  -- `if err != nil` with its return.
  unfoldable pub unless_failed :
      Server S C Q I E O → Option E → (Run S C → Run S C) → Run S C → Run S C
  unless_failed s none next r = next r
  unless_failed s (some err) next r = refuse s err r

  unfoldable pub encode : Server S C Q I E O → O → Run S C → Run S C
  unfolding unless_failed
  encode s response r =
      let (state', ops, err) = s.enc r.ctx response r.state in
      unless_failed s err (λ r'. r') (record r { state = state'; w = apply r.w ops })

  unfoldable pub respond : Server S C Q I E O → I → Run S C → Run S C
  unfolding encode
  respond s request r =
      let (state', reply) = s.e r.ctx request r.state in
      unless_failed s reply.err (λ r'. encode s reply.response (run_after s.after r'))
        (record r { state = state' })

  -- All that is not deferred.
  unfoldable pub handle : Server S C Q I E O → Q → Run S C → Run S C
  unfolding respond
  handle s q r =
      let r1 = run_before s.before q r in
      let (state', reply) = s.dec r1.ctx q r1.state in
      unless_failed s reply.err (respond s reply.response) (record r1 { state = state' })

  -- The deferred function; without the intercepting writer nothing was deferred.
  abbrev pub finish : Keys C → Server S C Q I E O → Q → Target → Run S C → Run S C
  finish keys s q (plain cs) r = r
  finish keys s q (intercepted iw) r =
      let ctx' = keys.with_size iw.written (keys.with_headers r.w.header r.ctx) in
      record r { ctx = ctx'; state = run_finalizers s.finalizer ctx' iw.code q r.state }

  unfoldable pub serve_http : Keys C → Server S C Q I E O → C → Q → S → Run S C
  serve_http keys s ctx q state =
      let r = handle s q (record {
        state = state;
        ctx = ctx;
        w = record { header = []; target = target_for s.finalizer };
      }) in
      finish keys s q r.w.target r
