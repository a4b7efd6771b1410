-- ===== src/Transport/Http/Server/Finalizing.antt =====
-- What the finalizers of ServeHTTP in transport/http/server.go are told.
use yoroi.Prelude.{ℕ, ◌+◌, ◌≡◌, refl, ap, sym, subst, Option, none, some, List, [], ◌∷◌, arith}
use yoroi.Transport.Http.InterceptingWriter.{
  Call, headed, wrote, read, InterceptingWriter, intercept, call, write, write_header,
}
use yoroi.Transport.Http.Server.{
  Op, sets, adds, Writer, Target, intercepted, call_target, apply_op, apply, Server, Keys, Run,
  run_before, run_after, run_finalizers, refuse, unless_failed, encode, respond, handle, finish,
  target_for, serve_http,
}

-- The code of the last call of WriteHeader, the calls being given with the last one first.
abbrev pub latest_code : List Call → ℕ
latest_code [] = 200
latest_code (headed c ∷ cs) = c
latest_code (wrote n ∷ cs) = latest_code cs
latest_code (read n ∷ cs) = latest_code cs

abbrev pub body_written : List Call → ℕ
body_written [] = 0
body_written (headed c ∷ cs) = body_written cs
body_written (wrote n ∷ cs) = body_written cs + n
body_written (read n ∷ cs) = body_written cs

-- The intercepting writer is in place, and knows the calls so far.
pub data IsWatched : Target → Type 0 where
  watched :
      (iw : InterceptingWriter)
      → iw.code ≡ latest_code iw.underlying
      → iw.written ≡ body_written iw.underlying
      → IsWatched (intercepted iw)

call_target-IsWatched : (t : Target) (c : Call) → IsWatched t → IsWatched (call_target t c)
unfolding call write write_header
call_target-IsWatched t (headed c) (watched iw h k) = watched _ refl k
call_target-IsWatched t (wrote n) (watched iw h k) = watched _ h (omega (arith, k))
call_target-IsWatched t (read n) (watched iw h k) = watched _ h k

apply-IsWatched : (ops : List Op) (w : Writer) → IsWatched w.target → IsWatched (apply w ops).target
unfolding apply
apply-IsWatched [] w h = h
apply-IsWatched (sets k v ∷ ops) w h = apply-IsWatched ops (apply_op w (sets k v)) h
apply-IsWatched (adds k v ∷ ops) w h = apply-IsWatched ops (apply_op w (adds k v)) h
apply-IsWatched (Op.calls c ∷ ops) w h =
    apply-IsWatched ops (apply_op w (Op.calls c)) (call_target-IsWatched w.target c h)

module _ {ℓ} {S C Q : Type ℓ} where
  run_before-IsWatched :
      (fs : List (C → Q → S → S × C)) (q : Q) (r : Run S C)
      → IsWatched r.w.target
      → IsWatched (run_before fs q r).w.target
  unfolding run_before
  run_before-IsWatched [] q r h = h
  run_before-IsWatched (f ∷ fs) q r h =
      run_before-IsWatched fs q
        (record r { state = (f r.ctx q r.state).0; ctx = (f r.ctx q r.state).1 }) h

module _ {ℓ} {S C : Type ℓ} where
  run_after-IsWatched :
      (fs : List (C → S → S × List Op × C)) (r : Run S C)
      → IsWatched r.w.target
      → IsWatched (run_after fs r).w.target
  unfolding run_after
  run_after-IsWatched [] r h = h
  run_after-IsWatched (f ∷ fs) r h =
      let out = f r.ctx r.state in
      run_after-IsWatched fs (record { state = out.0; ctx = out.2; w = apply r.w out.1 })
        (apply-IsWatched out.1 r.w h)

module _ {ℓ} {S C Q I E O : Type ℓ} (s : Server S C Q I E O) where
  refuse-IsWatched :
      (err : E) (r : Run S C) → IsWatched r.w.target → IsWatched (refuse s err r).w.target
  unfolding refuse
  refuse-IsWatched err r h = apply-IsWatched _ r.w h

  unless_failed-IsWatched :
      (err : Option E) (next : Run S C → Run S C) (r : Run S C)
      → ((r' : Run S C) → IsWatched r'.w.target → IsWatched (next r').w.target)
      → IsWatched r.w.target
      → IsWatched (unless_failed s err next r).w.target
  unfolding unless_failed
  unless_failed-IsWatched none next r k h = k r h
  unless_failed-IsWatched (some err) next r k h = refuse-IsWatched err r h

  encode-IsWatched :
      (o : O) (r : Run S C) → IsWatched r.w.target → IsWatched (encode s o r).w.target
  unfolding encode
  encode-IsWatched o r h =
      let out = s.enc r.ctx o r.state in
      unless_failed-IsWatched out.2 (λ r'. r') (record r { state = out.0; w = apply r.w out.1 })
        (λ r' k. k) (apply-IsWatched out.1 r.w h)

  respond-IsWatched :
      (i : I) (r : Run S C) → IsWatched r.w.target → IsWatched (respond s i r).w.target
  unfolding respond
  respond-IsWatched i r h =
      let out = s.e r.ctx i r.state in
      unless_failed-IsWatched out.1.err (λ r'. encode s out.1.response (run_after s.after r'))
        (record r { state = out.0 })
        (λ r' k.
          encode-IsWatched out.1.response (run_after s.after r') (run_after-IsWatched s.after r' k))
        h

  handle-IsWatched :
      (q : Q) (r : Run S C) → IsWatched r.w.target → IsWatched (handle s q r).w.target
  unfolding handle
  handle-IsWatched q r h =
      let r1 = run_before s.before q r in
      let out = s.dec r1.ctx q r1.state in
      unless_failed-IsWatched out.1.err (respond s out.1.response) (record r1 { state = out.0 })
        (respond-IsWatched out.1.response) (run_before-IsWatched s.before q r h)

  -- What `serve_http` gives after `handle`, the intercepting writer being known.
  abbrev pub Finalized : Keys C → Q → Run S C → Run S C → Type ℓ
  Finalized keys q r done =
      (iw : InterceptingWriter) × (r.w.target ≡ intercepted iw)
      × (done.w ≡ r.w)
      × (done.ctx
          ≡ keys.with_size (body_written iw.underlying) (keys.with_headers r.w.header r.ctx))
      × (done.state ≡ run_finalizers s.finalizer done.ctx (latest_code iw.underlying) q r.state)

  finish-Finalized :
      (keys : Keys C) (q : Q) (r : Run S C) (t : Target)
      → r.w.target ≡ t
      → IsWatched t
      → Finalized keys q r (finish keys s q t r)
  finish-Finalized keys q r t e (watched iw h k) = (
    iw,
    e,
    refl,
    ap (λ n. keys.with_size n (keys.with_headers r.w.header r.ctx)) k,
    ap
        (λ code.
          run_finalizers s.finalizer
            (keys.with_size iw.written (keys.with_headers r.w.header r.ctx)) code q r.state)
        h,
  )

  -- If a server has finalizers, then on every branch they all run in their order after everything
  -- else, with the code of the last call of WriteHeader, or 200, and a context that has the calls on
  -- headers and the number of bytes that were written by Write.
  pub serve_http-Finalized :
      (keys : Keys C) (ctx : C) (q : Q) (state : S) (f : C → ℕ → Q → S → S)
      (fs : List (C → ℕ → Q → S → S))
      → s.finalizer ≡ f ∷ fs
      → (r : Run S C) × (r
          ≡ handle s q (record {
            state = state;
            ctx = ctx;
            w = record { header = []; target = intercepted intercept };
          }))
        × Finalized keys q r (serve_http keys s ctx q state)
  unfolding serve_http
  serve_http-Finalized keys ctx q state f fs e =
      let start : Target → Run S C =
        λ t. record { state = state; ctx = ctx; w = record { header = []; target = t } } in
      let r = handle s q (start (intercepted intercept)) in
      let k = handle-IsWatched q (start (intercepted intercept)) (watched intercept refl refl) in
      (
        r,
        refl,
        subst
            (λ t.
              Finalized keys q r
                (finish keys s q (handle s q (start t)).w.target (handle s q (start t))))
            (sym (ap target_for e)) (finish-Finalized keys q r r.w.target refl k),
      )
