-- ===== src/Auth/Jwt.antt =====
-- auth/jwt/middleware.go: signing and parsing middlewares. The library golang-jwt is an argument:
-- signing, and parsing with the callback that looks up the key.
pub mod Header
pub mod Parsing
use yoroi.Prelude.{ℕ, Bool, true, false, Option, none, some, not, if◌then◌else◌}
use yoroi.Endpoint.{Reply, Endpoint, Middleware}
use yoroi.Auth.Bytes.{Bytes}

-- The errors of the package, and those of other packages.
pub data Error (E : Type 0) : Type 0 where
  token_context_missing : Error E
  token_invalid : Error E
  token_expired : Error E
  token_malformed : Error E
  token_not_active : Error E
  unexpected_signing_method : Error E
  other : E → Error E

-- The two values of the context that the package keeps, beside the rest.
pub record Context (Claims : Type 0) : Type 0 where
  pub token : Option Bytes
  pub claims : Option Claims

pub record Token (Method Claims : Type 0) : Type 0 where
  pub method : Method
  pub valid : Bool
  pub claims : Claims

-- A `*jwt.ValidationError`, by the bits that are read.
pub record ValidationError (E : Type 0) : Type 0 where
  pub malformed : Bool
  pub expired : Bool
  pub not_valid_yet : Bool
  pub inner : Option (Error E)
  pub itself : E

pub data Parsed (Method Claims E : Type 0) : Type 0 where
  parsed : Token Method Claims → Parsed Method Claims E
  not_valid : ValidationError E → Parsed Method Claims E
  failed : E → Parsed Method Claims E

pub data KeyResult (Key E : Type 0) : Type 0 where
  key : Key → KeyResult Key E
  no_key : Error E → KeyResult Key E

-- jwt.Keyfunc
abbrev pub Keyfunc : Type 0 → Type 0 → Type 0 → Type 0 → Type 0
Keyfunc Method Claims Key E = Token Method Claims → KeyResult Key E

-- What `NewParser` takes from elsewhere: the zero value of the response, the parser of the library,
-- and the comparison of signing methods.
pub record Library (O Method Claims Key E : Type 0) : Type 0 where
  pub zero_value : O
  pub parse_with_claims : Bytes → Keyfunc Method Claims Key E → Parsed Method Claims E
  pub same_method : Method → Method → Bool

abbrev pub classify : {E : Type 0} → ValidationError E → Error E
classify e =
    if e.malformed
    then token_malformed
    else if e.expired
    then token_expired
    else if e.not_valid_yet
    then token_not_active
    else elim e.inner [ some i ↦ i | none ↦ other e.itself ]

abbrev pub refuse : {W E O : Type 0} → O → Error E → W → W × Reply (Error E) O
refuse zero_value e w = (w, record { response = zero_value; err = some e })

module _ {O Method Claims Key E : Type 0} (lib : Library O Method Claims Key E) where
  -- The callback that `NewParser` hands to the library.
  unfoldable pub checked_key : Keyfunc Method Claims Key E → Method → Keyfunc Method Claims Key E
  checked_key key_func method token =
      if not (lib.same_method token.method method)
      then no_key unexpected_signing_method
      else key_func token

  abbrev pub after_parse :
      {W Q : Type 0}
      → Endpoint W (Context Claims) Q (Error E) O
      → Context Claims
      → Q
      → W
      → Parsed Method Claims E
      → W × Reply (Error E) O
  after_parse next ctx request w (not_valid e) = refuse lib.zero_value (classify e) w
  after_parse next ctx request w (failed e) = refuse lib.zero_value (other e) w
  after_parse next ctx request w (parsed token) =
      if not token.valid
      then refuse lib.zero_value token_invalid w
      else next (record ctx { claims = some token.claims }) request w

  pub new_parser :
      {W Q : Type 0}
      → Keyfunc Method Claims Key E
      → Method
      → Middleware W (Context Claims) Q (Error E) O
  new_parser key_func method next ctx request w = elim ctx.token [
    | none ↦ refuse lib.zero_value token_context_missing w
    | some token_string ↦
        after_parse next ctx request w
          (lib.parse_with_claims token_string (checked_key key_func method))
  ]

-- A signed string or the error of `SignedString`.
pub data Signed (E : Type 0) : Type 0 where
  signed : Bytes → Signed E
  unsigned : E → Signed E

module _ {W Q O Method Claims Key E : Type 0} (zero_value : O)
    (sign : Bytes → Key → Method → Claims → Signed E) where
  -- The new token carries the key ID `kid` in its header.
  pub new_signer : Bytes → Key → Method → Claims → Middleware W (Context Claims) Q (Error E) O
  new_signer kid k method claims next ctx request w = elim (sign kid k method claims) [
    | unsigned e ↦ (w, record { response = zero_value; err = some (other e) })
    | signed token_string ↦ next (record ctx { token = some token_string }) request w
  ]
