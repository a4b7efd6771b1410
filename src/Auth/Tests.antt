-- ===== src/Auth/Tests.antt =====
-- The theorems about auth at concrete headers and tokens.
use yoroi.Prelude.{◌∷◌, ℕ, ◌≡◌, refl, subst, true, Option, none, some, [], ◌==◌}
use yoroi.Endpoint.{Endpoint}
use yoroi.Auth.Bytes.{Bytes, codes, has_byte}
use yoroi.Auth.Basic.{AuthError, Platform, Required, deny, prefix, auth_middleware}
use yoroi.Auth.Basic
use yoroi.Auth.Basic.Admission
use yoroi.Auth.Basic.Admission.{Presents, admits_only_required, admits_required}
use yoroi.Auth.Jwt
use yoroi.Auth.Jwt.{
  Context, Token, Parsed, parsed, KeyResult, key, no_key, Keyfunc, Library, checked_key, new_parser,
}
use yoroi.Auth.Jwt.Header.{
  Request, generate_auth_header_from_token, extract_token_from_auth_header, extract-generate,
  http_to_context, context_to_http, grpc_to_context, context_to_grpc,
}
use yoroi.Auth.Jwt.Header
use yoroi.Auth.Jwt.Parsing
use yoroi.Auth.Jwt.Parsing.{KeepsKeys, admits_only_valid, token_travels}

-- Texts stand for their encodings and hashes.
abbrev plain : Platform (Option Bytes) ℕ
plain = record {
  zero_value = 0;
  decode_base64 = λ s. some s;
  sha256 = λ s. s;
  authorization = λ c. c;
}

abbrev required : Required
required = record { user = codes "ada"; password = codes "x:y"; realm = codes "home" }

abbrev seven : Endpoint ℕ (Option Bytes) ℕ (Basic.Error ℕ) ℕ
seven ctx q w = (w, record { response = 7; err = none })

admits_only_required_example :
    Admission.Verdict plain required seven
      (some (codes "Basic ada:z"))
      0
      0
      (auth_middleware plain required seven (some (codes "Basic ada:z")) 0 0)
admits_only_required_example =
    admits_only_required plain required seven (some (codes "Basic ada:z")) 0 0

ada-Presents : Presents plain required (some (codes "Basic ada:x:y")) (codes "ada") (codes "x:y")
unfolding has_byte
ada-Presents = record {
  rest = codes "ada:x:y";
  header = refl;
  decoded = refl;
  no_colon = refl;
  user_hash = refl;
  password_hash = refl;
}

mixed_case : extract_token_from_auth_header (codes "bEARER tok") ≡ some (codes "tok")
unfolding extract_token_from_auth_header Header.split Header.equal_fold
mixed_case = refl

abbrev token : Token ℕ ℕ
token = record { method = 1; valid = true; claims = 42 }

abbrev answer : KeyResult ℕ ℕ → Parsed ℕ ℕ ℕ
answer (key k) = parsed token
answer (no_key e) = Jwt.Parsed.failed 0

-- Parses every string as the token, if the callback has a key for it.
abbrev library : Library ℕ ℕ ℕ ℕ ℕ
library = record {
  zero_value = 0;
  parse_with_claims = λ s f. answer (f token);
  same_method = λ a b. a == b;
}

abbrev one_key : Keyfunc ℕ ℕ ℕ ℕ
one_key t = key 5

keyed_by_answer :
    (f : Keyfunc ℕ ℕ ℕ ℕ) (t : Token ℕ ℕ) (r : KeyResult ℕ ℕ)
    → f token ≡ r
    → answer r ≡ parsed t
    → (k : ℕ) × (f t ≡ key k)
keyed_by_answer f t (key k) e h = (k, subst (λ x. f x ≡ key k) (cc) e)
keyed_by_answer f t (no_key x) e h = cc

library-KeepsKeys : KeepsKeys library
library-KeepsKeys = record { keyed = λ s f t h. keyed_by_answer f t (f token) refl h }

abbrev with_claims : Endpoint ℕ (Context ℕ) ℕ (Jwt.Error ℕ) ℕ
with_claims ctx q w = (w, record { response = 7; err = none })

abbrev held : Context ℕ
held = record { token = some (codes "t"); claims = none }

admits_only_valid_example :
    Parsing.Verdict library one_key 2 with_claims held 0 0
      (new_parser library one_key 2 with_claims held 0 0)
admits_only_valid_example =
    admits_only_valid library one_key 2 with_claims held 0 0 library-KeepsKeys

abbrev empty : Context ℕ
empty = record { token = none; claims = none }

token_travels_example :
    (new_parser library one_key 1 with_claims
        (http_to_context empty (context_to_http held (record { authorization = [] })))
        0
        0
      ≡ (0, record { response = 7; err = none }))
    × (ctx : Context ℕ) × (grpc_to_context empty (context_to_grpc held (some (codes "stale" ∷ [])))
        ≡ some ctx)
    × (new_parser library one_key 1 with_claims ctx 0 0 ≡ (0, record { response = 7; err = none }))
unfolding has_byte checked_key
token_travels_example =
    token_travels library one_key 1 with_claims held empty (codes "t") token 0 0 refl refl refl refl
      (some (codes "stale" ∷ []))
