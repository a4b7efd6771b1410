-- ===== src/Transport/Jsonrpc/Server/Runs.antt =====
-- The run of ServeHTTP in transport/http/jsonrpc/server.go up to the look for the method.
use yoroi.Prelude.{
  ℕ, ◌≡◌, refl, ap, ◌∙◌, Option, none, some, List, [], ◌∷◌, str_eq, if◌then◌else◌, lookup,
}
use yoroi.Transport.Jsonrpc.Server.{
  Library, Request, Server, Run, run_before, run_before_codec, not_allowed, dispatch, take_request,
  read_body, serve_post, finish, serve_http,
}

module _ {ℓ} {S C Q N : Type ℓ} where
  ops-run_before :
      (fs : List (C → Q → S → S × C × Q)) (q : Q) (r : Run S C N)
      → (run_before fs q r).0.ops ≡ r.ops
  unfolding run_before
  ops-run_before [] q r = refl
  ops-run_before (f ∷ fs) q r =
      let (state', ctx', q') = f r.ctx q r.state in
      ops-run_before fs q' (record r { state = state'; ctx = ctx' })

  ops-run_before_codec :
      (fs : List (C → Q → Request N → S → S × C × Q)) (q : Q) (req : Request N) (r : Run S C N)
      → (run_before_codec fs q req r).0.ops ≡ r.ops
  unfolding run_before_codec
  ops-run_before_codec [] q req r = refl
  ops-run_before_codec (f ∷ fs) q req r =
      let (state', ctx', q') = f r.ctx q req r.state in
      ops-run_before_codec fs q' req (record r { state = state'; ctx = ctx' })

  ops-finish : (f : Option (C → ℕ → Q → S → S)) (q : Q) (r : Run S C N) → (finish f q r).ops ≡ r.ops
  ops-finish none q r = refl
  ops-finish (some f) q r = refl

module _ {ℓ} {S C Q N I O E : Type ℓ} (lib : Library C Q N) (s : Server S C Q N I O E) where
  -- The start, and what the functions before the body leave.
  abbrev pub started : C → Q → S → Run S C N × Q
  started ctx q st = run_before s.before q (record { state = st; ctx = ctx; ops = [] })

  -- The context of the codecs.
  abbrev pub informed : Request N → Run S C N → Run S C N
  informed req r = record r { ctx = lib.with_method req.method (lib.with_id req.id r.ctx) }

  -- The run of the server when it looks for the method.
  abbrev pub taken : C → Q → Request N → S → Run S C N
  taken ctx q req st =
      let (r, q') = started ctx q st in
      (run_before_codec s.before_codec (lib.body_read q') req (informed req r)).0

  pub ops-taken : (ctx : C) (q : Q) (req : Request N) (st : S) → (taken ctx q req st).ops ≡ []
  ops-taken ctx q req st =
      let (r, q') = started ctx q st in
      ops-run_before_codec s.before_codec (lib.body_read q') req (informed req r)
      ∙ ops-run_before s.before q (record { state = st; ctx = ctx; ops = [] })

  pub served :
      (ctx : C) (q : Q) (req : Request N) (st : S)
      → lib.http_method q ≡ "POST"
      → lib.decoded (started ctx q st).1 ≡ some req
      → (serve_http lib s ctx q st).ops
        ≡ (dispatch lib s (lookup req.method s.ecm) req (taken ctx q req st)).ops
  unfolding serve_http serve_post read_body take_request
  served ctx q req st post decoded =
      let start : Run S C N = record { state = st; ctx = ctx; ops = [] } in
      let (r, q') = started ctx q st in
      ap
        (λ m.
          (if str_eq m "POST"
            then serve_post lib s q start
            else record start { ops = not_allowed }).ops)
        post
      ∙ ops-finish s.finalizer _ (read_body lib s q' (lib.decoded q') r).0
      ∙ ap (λ d. (read_body lib s q' d r).0.ops) decoded
