-- ===== src/Transport/Http/Server/Encoders.antt =====
-- transport/http/server.go: EncodeJSONResponse and DefaultErrorEncoder, as the calls that they make on
-- the response writer. The underlying writer accepts all that it is given.
use yoroi.Prelude.{ℕ, String, Option, none, some, List, [], ◌∷◌, ◌==◌, if◌then◌else◌, Assoc}
use yoroi.Transport.Http.InterceptingWriter.{headed, wrote}
use yoroi.Transport.Http.Server.{Op, sets, adds}

-- What `json.Encoder` writes for a value, by its length, or its error.
pub data Encoded {ℓ} (E : Type ℓ) : Type ℓ where
  body : ℕ → Encoded E
  fails : E → Encoded E

-- The interfaces that a value may implement: Headerer and StatusCoder.
pub record Described {ℓ} (O : Type ℓ) : Type ℓ where
  pub headers : O → Option (Assoc (List String))
  pub status_code : O → Option ℕ

abbrev pub add_all : String → List String → List Op → List Op
add_all k [] ops = ops
add_all k (v ∷ vs) ops = adds k v ∷ add_all k vs ops

abbrev pub add_values : Assoc (List String) → List Op → List Op
add_values [] ops = ops
add_values ((k, vs) ∷ rest) ops = add_all k vs (add_values rest ops)

abbrev pub add_headers : Option (Assoc (List String)) → List Op → List Op
add_headers none ops = ops
add_headers (some h) ops = add_values h ops

abbrev pub code_or : ℕ → Option ℕ → ℕ
code_or code none = code
code_or code (some c) = c

module _ {ℓ} {E : Type ℓ} where
  abbrev pub body_calls : Encoded E → List Op
  body_calls (body n) = Op.calls (wrote n) ∷ []
  body_calls (fails e) = []

  abbrev pub body_error : Encoded E → Option E
  body_error (body n) = none
  body_error (fails e) = some e

module _ {ℓ} {O E : Type ℓ} where
  unfoldable pub encode_json_response : Described O → (O → Encoded E) → O → List Op × Option E
  encode_json_response d json response =
      let code = code_or 200 (d.status_code response) in
      let no_content = code == 204 in
      (
        sets "Content-Type" "application/json; charset=utf-8"
            ∷ add_headers (d.headers response)
                (Op.calls (headed code) ∷ (if no_content then [] else body_calls (json response))),
        if no_content then none else body_error (json response),
      )

-- `marshal_json` is the length of the JSON form, if the error implements Marshaler and the call
-- succeeds; `text` is the length of the message.
pub record Marshaled {ℓ} (E : Type ℓ) : Type ℓ where
  pub marshal_json : E → Option ℕ
  pub text : E → ℕ

abbrev pub content_type : Option ℕ → String
content_type none = "text/plain; charset=utf-8"
content_type (some n) = "application/json; charset=utf-8"

module _ {ℓ} {E : Type ℓ} where
  unfoldable pub default_error_encoder : Described E → Marshaled E → E → List Op
  default_error_encoder d m err =
      sets "Content-Type" (content_type (m.marshal_json err))
      ∷ add_headers (d.headers err) (
          Op.calls (headed (code_or 500 (d.status_code err)))
          ∷ Op.calls (wrote (code_or (m.text err) (m.marshal_json err)))
          ∷ [])
