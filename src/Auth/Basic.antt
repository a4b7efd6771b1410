-- ===== src/Auth/Basic.antt =====
-- auth/basic/middleware.go: HTTP basic authentication. Base64 decoding and SHA-256 are arguments;
-- strings are lists of bytes.
pub mod Admission
use yoroi.Prelude.{
  ℕ, Bool, true, false, ◌||◌, not, Option, none, some, List, [], ◌∷◌, ◌==◌, ◌&&◌, if◌then◌else◌,
}
use yoroi.Endpoint.{Reply, Endpoint, Middleware}
use yoroi.Auth.Bytes.{Bytes, codes, cut_prefix, split_at}

pub record AuthError : Type 0 where
  pub realm : Bytes

abbrev pub status_code : AuthError → ℕ
status_code e = 401

abbrev pub prefix : Bytes
prefix = codes "Basic "

abbrev pub colon : ℕ
colon = b':'

-- subtle.ConstantTimeCompare(x, y) == 1: whether the slices have the same contents.
unfoldable pub constant_time_compare : Bytes → Bytes → Bool
constant_time_compare [] [] = true
constant_time_compare (x ∷ xs) (y ∷ ys) = x == y && constant_time_compare xs ys
constant_time_compare _ _ = false

module _ (decode_base64 : Bytes → Option Bytes) where
  -- `none` is the answer with `ok` false.
  pub parse_basic_auth : Bytes → Option (Bytes × Bytes)
  parse_basic_auth auth = elim (cut_prefix prefix auth) [
    | none ↦ none
    | some rest ↦ elim (decode_base64 rest) [ none ↦ none | some c ↦ split_at colon c ]
  ]

-- What the middleware returns: an error of its own, or what the next endpoint returns.
pub data Error (E : Type 0) : Type 0 where
  unauthorized : AuthError → Error E
  inner : E → Error E

-- What the middleware takes from elsewhere: the zero value of the response, the libraries, and the
-- string that the context holds under ContextKeyRequestAuthorization.
pub record Platform (C O : Type 0) : Type 0 where
  pub zero_value : O
  pub decode_base64 : Bytes → Option Bytes
  pub sha256 : Bytes → Bytes
  pub authorization : C → Option Bytes

abbrev pub deny : {W E C O : Type 0} → Platform C O → Bytes → W → W × Reply (Error E) O
deny pf realm w =
    (w, record { response = pf.zero_value; err = some (unauthorized (record { realm = realm })) })

-- The arguments of `AuthMiddleware`.
pub record Required : Type 0 where
  pub user : Bytes
  pub password : Bytes
  pub realm : Bytes

module _ {W C Q E O : Type 0} (pf : Platform C O) (required : Required) where
  abbrev pub check_credentials :
      Endpoint W C Q (Error E) O → C → Q → W → Option (Bytes × Bytes) → W × Reply (Error E) O
  check_credentials next ctx request w none = deny pf required.realm w
  check_credentials next ctx request w (some (given_user, given_password)) =
      if not (constant_time_compare (pf.sha256 given_user) (pf.sha256 required.user))
        || not (constant_time_compare (pf.sha256 given_password) (pf.sha256 required.password))
      then deny pf required.realm w
      else next ctx request w

  pub auth_middleware : Middleware W C Q (Error E) O
  auth_middleware next ctx request w = elim (pf.authorization ctx) [
    | none ↦ deny pf required.realm w
    | some auth ↦ check_credentials next ctx request w (parse_basic_auth pf.decode_base64 auth)
  ]
