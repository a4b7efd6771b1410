-- ===== src/Transport/Jsonrpc/Error.antt =====
-- transport/http/jsonrpc/error.go.
use yoroi.Prelude.{ℕ, String, Option, some}

pub data ℤ : Type 0 where
  pos : ℕ → ℤ
  negsuc : ℕ → ℤ

abbrev pub parse_error_code : ℤ
parse_error_code = negsuc 32699

abbrev pub invalid_request_code : ℤ
invalid_request_code = negsuc 32599

abbrev pub method_not_found_code : ℤ
method_not_found_code = negsuc 32600

abbrev pub invalid_params_code : ℤ
invalid_params_code = negsuc 32601

abbrev pub internal_error_code : ℤ
internal_error_code = negsuc 32602

-- Error; `Data` is left out.
pub record Error : Type 0 where
  pub code : ℤ
  pub message : String

-- The errors of the package, and those of users.
pub data Err {ℓ} (E : Type ℓ) : Type ℓ where
  parse_error : String → Err E
  invalid_request_error : String → Err E
  method_not_found_error : String → Err E
  invalid_params_error : String → Err E
  internal_error : String → Err E
  user : E → Err E

-- The methods and interfaces of a user's errors.
pub record Errors {ℓ} (E : Type ℓ) : Type ℓ where
  pub message_of : E → String
  pub code_of : E → Option ℤ

module _ {ℓ} {E : Type ℓ} (es : Errors E) where
  -- Error()
  pub error : Err E → String
  error (parse_error e) = e
  error (invalid_request_error e) = e
  error (method_not_found_error e) = e
  error (invalid_params_error e) = e
  error (internal_error e) = e
  error (user e) = es.message_of e

  -- ErrorCode(), where it is implemented
  unfoldable pub error_code : Err E → Option ℤ
  error_code (parse_error e) = some parse_error_code
  error_code (invalid_request_error e) = some invalid_request_code
  error_code (method_not_found_error e) = some method_not_found_code
  error_code (invalid_params_error e) = some invalid_params_code
  error_code (internal_error e) = some internal_error_code
  error_code (user e) = es.code_of e
