-- ===== src/AppErrors.antt =====
-- internal/pkg/errors/errors.go
use Prim.Native.String.{◌++◌}
use go_agent_api.Base.{ℕ, String, Option, none, some}
use go_agent_api.Base.Exec.{Error, error_text}

pub record AppError : Type 0 where
  pub code : String
  pub message : String
  pub status_code : ℕ
  pub cause : Option Error

abbrev text_with : String → Option Error → String
text_with message none = message
text_with message (some x) = message ++ ": " ++ error_text x

-- Error
unfoldable pub app_error_text : AppError → String
app_error_text e = text_with e.message e.cause

-- Wrap
unfoldable pub wrap : Error → AppError → AppError
wrap x e = record e { cause = some x }

-- Unwrap
unfoldable pub unwrap : AppError → Option Error
unwrap e = e.cause

abbrev plain_error : String → String → ℕ → AppError
plain_error code message status = record {
  code = code;
  message = message;
  status_code = status;
  cause = none;
}

-- the variables
abbrev pub err_not_found : AppError
err_not_found = plain_error "NOT_FOUND" "Resource not found" 404

abbrev pub err_unauthorized : AppError
err_unauthorized = plain_error "UNAUTHORIZED" "Unauthorized" 401

abbrev pub err_forbidden : AppError
err_forbidden = plain_error "FORBIDDEN" "Forbidden" 403

abbrev pub err_token_expired : AppError
err_token_expired = plain_error "TOKEN_EXPIRED" "Token has expired" 401

abbrev pub err_invalid_token : AppError
err_invalid_token = plain_error "INVALID_TOKEN" "Invalid token" 401

abbrev pub err_rate_limit_exceeded : AppError
err_rate_limit_exceeded = plain_error "RATE_LIMIT" "Rate limit exceeded" 429

abbrev pub err_tool_execution_failed : AppError
err_tool_execution_failed = plain_error "TOOL_EXEC_FAILED" "Tool execution failed" 500

abbrev pub err_tool_not_allowed : AppError
err_tool_not_allowed = plain_error "TOOL_NOT_ALLOWED" "Tool not allowed for this token" 403

abbrev pub err_pending_approval : AppError
err_pending_approval = plain_error "PENDING_APPROVAL" "Action pending approval" 202

abbrev pub err_validation : AppError
err_validation = plain_error "VALIDATION_ERROR" "Validation failed" 400

abbrev pub err_internal : AppError
err_internal = plain_error "INTERNAL_ERROR" "Internal server error" 500
