-- ===== src/Transport/Http/Server/Handling.antt =====
-- What a client gets of the encoders of transport/http/server.go, and what the finalizers are told.
use yoroi.Prelude.{
  ℕ, ◌≡◌, ◌≢◌, refl, ap, ◌∙◌, ◌≤◌, String, Option, none, some, List, [], ◌∷◌, Bool, true, false,
  ◌==◌, if◌then◌else◌, Assoc, arith,
}
use yoroi.Transport.Http.InterceptingWriter.{
  Call, headed, wrote, InterceptingWriter, intercept, call, write, write_header,
}
use yoroi.Transport.Http.InterceptingWriter.Wrapping.{sent_code, onto}
use yoroi.Transport.Http.Server.{
  Op, sets, adds, Writer, Target, intercepted, apply, apply_op, call_target, Server, Run, refuse,
  unless_failed, encode,
}
use yoroi.Transport.Http.Server.Encoders.{
  Encoded, body, fails, body_calls, body_error, Described, Marshaled, add_all, add_values,
  add_headers, code_or, encode_json_response, default_error_encoder,
}

-- The calls of a list that are not on headers.
targets : Target → List Op → Target
targets t [] = t
targets t (sets k v ∷ ops) = targets t ops
targets t (adds k v ∷ ops) = targets t ops
targets t (Op.calls c ∷ ops) = targets (call_target t c) ops

target-apply : (ops : List Op) (w : Writer) → (apply w ops).target ≡ targets w.target ops
unfolding apply targets
target-apply [] w = refl
target-apply (sets k v ∷ ops) w = target-apply ops (apply_op w (sets k v))
target-apply (adds k v ∷ ops) w = target-apply ops (apply_op w (adds k v))
target-apply (Op.calls c ∷ ops) w = target-apply ops (apply_op w (Op.calls c))

targets-add_all :
    (k : String) (vs : List String) (ops : List Op) (t : Target)
    → targets t (add_all k vs ops) ≡ targets t ops
unfolding targets
targets-add_all k [] ops t = refl
targets-add_all k (v ∷ vs) ops t = targets-add_all k vs ops t

targets-add_values :
    (h : Assoc (List String)) (ops : List Op) (t : Target)
    → targets t (add_values h ops) ≡ targets t ops
unfolding targets
targets-add_values [] ops t = refl
targets-add_values ((k, vs) ∷ rest) ops t =
    targets-add_all k vs (add_values rest ops) t ∙ targets-add_values rest ops t

targets-add_headers :
    (h : Option (Assoc (List String))) (ops : List Op) (t : Target)
    → targets t (add_headers h ops) ≡ targets t ops
targets-add_headers none ops t = refl
targets-add_headers (some h) ops t = targets-add_values h ops t

-- The writes of a body, if there is one.
abbrev pub body_unless {ℓ} : {E : Type ℓ} → Bool → Encoded E → List Call
body_unless true e = []
body_unless false (body n) = wrote n ∷ []
body_unless false (fails e) = []

module _ {ℓ} {E : Type ℓ} where
  written_body :
      (code : ℕ) (no_content : Bool) (e : Encoded E)
      → (iw : InterceptingWriter) × (targets
            (intercepted (write_header intercept code))
            (if no_content then [] else body_calls e)
          ≡ intercepted iw)
        × (iw.code ≡ code)
        × (onto iw.underlying [] ≡ headed code ∷ body_unless no_content e)
  unfolding targets write_header write call
  written_body code true e = (write_header intercept code, refl, refl, refl)
  written_body code false (body n) = (write (write_header intercept code) n, refl, refl, refl)
  written_body code false (fails e) = (write_header intercept code, refl, refl, refl)

module _ {ℓ} {O E : Type ℓ} where
  targets_json :
      (d : Described O) (json : O → Encoded E) (o : O)
      → targets (intercepted intercept) (encode_json_response d json o).0
        ≡ targets
            (intercepted (write_header intercept (code_or 200 (d.status_code o))))
            (if code_or 200 (d.status_code o) == 204 then [] else body_calls (json o))
  unfolding targets encode_json_response call
  targets_json d json o = targets-add_headers (d.headers o) _ (intercepted intercept)

  -- EncodeJSONResponse on a fresh response calls WriteHeader once, with the status code of the
  -- response or 200, and then writes the JSON form, but nothing if the code is 204 or the encoding
  -- fails.
  pub json_sent :
      (d : Described O) (json : O → Encoded E) (o : O)
      → (iw : InterceptingWriter) × ((apply
            (record { header = []; target = intercepted intercept })
            (encode_json_response d json o).0).target
          ≡ intercepted iw)
        × (iw.code ≡ code_or 200 (d.status_code o))
        × (onto iw.underlying []
            ≡ headed (code_or 200 (d.status_code o))
              ∷ body_unless (code_or 200 (d.status_code o) == 204) (json o))
  json_sent d json o =
      let code = code_or 200 (d.status_code o) in
      let (iw, e, c, sent) = written_body code (code == 204) (json o) in
      (iw, target-apply (encode_json_response d json o).0 _ ∙ targets_json d json o ∙ e, c, sent)

  unencodable :
      (d : Described O) (json : O → Encoded E) (o : O) (err : E)
      → json o ≡ fails err
      → code_or 200 (d.status_code o) ≢ 204
      → ((encode_json_response d json o).1 ≡ some err)
        × (targets (intercepted intercept) (encode_json_response d json o).0
            ≡ intercepted (write_header intercept (code_or 200 (d.status_code o))))
  unfolding encode_json_response targets
  unencodable d json o err j h =
      let no204 : (code_or 200 (d.status_code o) == 204) ≡ false = ground (arith, h) in
      let no_body : (if code_or 200 (d.status_code o) == 204 then [] else body_calls (json o))
          ≡ [] =
        ap (λ b. if b then [] else body_calls (json o)) no204 ∙ ap body_calls j in
      (
        ap (λ b. if b then none else body_error (json o)) no204 ∙ ap body_error j,
        targets_json d json o ∙ ap (targets _) no_body,
      )

module _ {ℓ} {S C Q I E O : Type ℓ} where
  target-refuse :
      (s : Server S C Q I E O) (de : Described E) (m : Marshaled E) (err : E) (r : Run S C)
      (iw : InterceptingWriter)
      → r.w.target ≡ intercepted iw
      → ((c : C) (e : E) (st : S) → (s.error_encoder c e st).1 ≡ default_error_encoder de m e)
      → (refuse s err r).w.target
        ≡ intercepted (
            write
              (write_header iw (code_or 500 (de.status_code err)))
              (code_or (m.text err) (m.marshal_json err)))
  unfolding refuse targets default_error_encoder call
  target-refuse s de m err r iw e enc =
      target-apply _ r.w
      ∙ ap (λ ops. targets r.w.target ops) (enc r.ctx err (s.error_handler r.ctx err r.state))
      ∙ ap (λ t. targets t (default_error_encoder de m err)) e
      ∙ targets-add_headers (de.headers err) _ (intercepted iw)

  -- If the JSON form of a response cannot be made, EncodeJSONResponse has already sent its status
  -- code: the client gets that one, where it is neither 204 nor informational, and the finalizers are
  -- told the code that DefaultErrorEncoder writes after it.
  pub encoding_error_hidden :
      (s : Server S C Q I E O) (d : Described O) (json : O → Encoded E) (de : Described E)
      (m : Marshaled E) (o : O) (err : E) (r : Run S C)
      → r.w.target ≡ intercepted intercept
      → (s.enc r.ctx o r.state).1 ≡ (encode_json_response d json o).0
      → (s.enc r.ctx o r.state).2 ≡ (encode_json_response d json o).1
      → ((c : C) (e : E) (st : S) → (s.error_encoder c e st).1 ≡ default_error_encoder de m e)
      → json o ≡ fails err
      → code_or 200 (d.status_code o) ≢ 204
      → 200 ≤ code_or 200 (d.status_code o)
      → (iw : InterceptingWriter) × ((encode s o r).w.target ≡ intercepted iw)
        × (sent_code (onto iw.underlying []) ≡ code_or 200 (d.status_code o))
        × (iw.code ≡ code_or 500 (de.status_code err))
  unfolding encode unless_failed write write_header
  encoding_error_hidden s d json de m o err r fresh ops e enc j h k =
      let code = code_or 200 (d.status_code o) in
      let out = s.enc r.ctx o r.state in
      let r' = record r { state = out.0; w = apply r.w out.1 } in
      let (failed, sent) = unencodable d json o err j h in
      let target : r'.w.target ≡ intercepted (write_header intercept code) =
        target-apply out.1 r.w
        ∙ ap (targets r.w.target) ops
        ∙ ap (λ t. targets t (encode_json_response d json o).0) fresh
        ∙ sent in
      let refused : encode s o r ≡ refuse s err r' =
        ap (λ x. unless_failed s x (λ y. y) r') (e ∙ failed) in
      (
        write (write_header (write_header intercept code) (code_or 500 (de.status_code err)))
            (code_or (m.text err) (m.marshal_json err)),
        ap (λ x. x.w.target) refused ∙ target-refuse s de m err r' _ target enc,
        ground arith,
        refl,
      )
