-- ===== src/Auth/Jwt/Header.antt =====
-- auth/jwt/transport.go: tokens in an `Authorization` header, for HTTP, fasthttp and gRPC.
use yoroi.Prelude.{
  ℕ, ◌+◌, ◌≡◌, refl, inl, inr, Bool, true, false, ◌&&◌, Option, none, some, List, [], ◌∷◌, ◌++◌,
  arith, leb, ◌==◌, if◌then◌else◌, Bool-cases,
}
use yoroi.Auth.Bytes.{Bytes, codes, has_byte}
use yoroi.Auth.Jwt.{Context}

abbrev pub space : ℕ
space = b' '

-- A byte in front of the first of the parts.
abbrev pub prepend : ℕ → List Bytes → List Bytes
prepend c [] = (c ∷ []) ∷ []
prepend c (p ∷ ps) = (c ∷ p) ∷ ps

-- strings.Split(s, " ")
unfoldable pub split : Bytes → List Bytes
split [] = [] ∷ []
split (c ∷ s) = let rest = split s in if c == space then [] ∷ rest else prepend c rest

abbrev pub to_lower : ℕ → ℕ
to_lower c = if leb b'A' c && leb c b'Z' then c + 32 else c

-- strings.EqualFold with the ASCII word `bearer`, which has no letter with a fold outside ASCII.
unfoldable pub equal_fold : Bytes → Bytes → Bool
equal_fold [] [] = true
equal_fold (x ∷ xs) (y ∷ ys) = to_lower x == to_lower y && equal_fold xs ys
equal_fold _ _ = false

abbrev pub bearer : Bytes
bearer = codes "bearer"

abbrev pub two_parts : List Bytes → Option Bytes
two_parts (a ∷ b ∷ []) = if equal_fold a bearer then some b else none
two_parts _ = none

-- `none` is the answer with `ok` false.
unfoldable pub extract_token_from_auth_header : Bytes → Option Bytes
extract_token_from_auth_header val = two_parts (split val)

unfoldable pub generate_auth_header_from_token : Bytes → Bytes
generate_auth_header_from_token token = codes "Bearer " ++ token

-- An HTTP request, by its `Authorization` headers; `Get` reads the first, or the empty string.
pub record Request : Type 0 where
  pub authorization : List Bytes

abbrev pub get : List Bytes → Bytes
get [] = []
get (v ∷ vs) = v

module _ {Claims : Type 0} where
  abbrev pub put_token : Context Claims → Option Bytes → Context Claims
  put_token ctx none = ctx
  put_token ctx (some token) = record ctx { token = some token }

  unfoldable pub http_to_context : Context Claims → Request → Context Claims
  unfolding extract_token_from_auth_header
  http_to_context ctx r = put_token ctx (extract_token_from_auth_header (get r.authorization))

  unfoldable pub context_to_http : Context Claims → Request → Request
  unfolding generate_auth_header_from_token
  context_to_http ctx r = elim ctx.token [
    | none ↦ r
    | some token ↦ record {
      authorization = r.authorization ++ generate_auth_header_from_token token ∷ [];
    }
  ]

  -- gRPC metadata: the values under `authorization`, `none` if the key is missing. A key with no
  -- values makes the code index out of range.
  unfoldable pub grpc_to_context : Context Claims → Option (List Bytes) → Option (Context Claims)
  unfolding extract_token_from_auth_header
  grpc_to_context ctx none = some ctx
  grpc_to_context ctx (some []) = none
  grpc_to_context ctx (some (v ∷ vs)) = some (put_token ctx (extract_token_from_auth_header v))

  unfoldable pub context_to_grpc : Context Claims → Option (List Bytes) → Option (List Bytes)
  unfolding generate_auth_header_from_token
  context_to_grpc ctx md = elim ctx.token [
    | none ↦ md
    | some token ↦ some (generate_auth_header_from_token token ∷ [])
  ]

split_no_space : (s : Bytes) → has_byte space s ≡ false → split s ≡ s ∷ []
unfolding split has_byte
split_no_space [] h = refl
split_no_space (c ∷ s) h = ground (arith, split_no_space s)

split_parts : (s : Bytes) → (p : Bytes) × (ps : List Bytes) × (split s ≡ p ∷ ps)
unfolding split
split_parts [] = ([], [], refl)
split_parts (c ∷ s) =
    let (p, ps, e) = split_parts s in
    elim (Bool-cases (c == space)) [ inl h ↦ ([], split s, rw h) | inr h ↦ (c ∷ p, ps, rw (h, e)) ]

-- A text with a space has at least two parts.
split-space :
    (s : Bytes)
    → has_byte space s ≡ true
    → (a : Bytes) × (b : Bytes) × (r : List Bytes) × (split s ≡ a ∷ b ∷ r)
unfolding split has_byte
split-space [] h = absurd (cc)
split-space (c ∷ s) h = elim (Bool-cases (c == space)) [
  | inl q ↦ let (p, ps, e) = split_parts s in ([], p, ps, rw (q, e))
  | inr q ↦ let (a, b, r, e) = split-space s (ground (arith, q)) in (c ∷ a, b, r, rw (q, e))
]

-- The token of a generated header is read back exactly if it has no space; otherwise none is read.
pub extract-generate :
    (token : Bytes)
    → extract_token_from_auth_header (generate_auth_header_from_token token)
      ≡ (if has_byte space token then none else some token)
unfolding extract_token_from_auth_header generate_auth_header_from_token split equal_fold
extract-generate token = elim (Bool-cases (has_byte space token)) [
  | inl h ↦ let (a, b, r, e) = split-space token h in rw (h, e)
  | inr h ↦ rw (h, split_no_space token h)
]
