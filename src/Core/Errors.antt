-- ===== src/Core/Errors.antt =====
-- internal/core/errors.go: the error codes and `AppError`.
use sd_wan_plus.Base.{String, Option, some, none}

pub data ErrorCode : Type 0 where
  unauthorized forbidden not_found conflict validation rate_limited : ErrorCode
  token_expired token_used token_revoked no_link forwarding_loop : ErrorCode
  policy_conflict config_failed netd_failed update_failed signature_invalid internal : ErrorCode

-- `Cause` is the text of the wrapped error, where there is one.
pub record AppError : Type 0 where
  pub code : ErrorCode
  pub message : String
  pub cause : Option String

unfoldable pub new_error : ErrorCode → String → AppError
new_error c m = record { code = c; message = m; cause = none }

unfoldable pub wrap_error : ErrorCode → String → String → AppError
wrap_error c m e = record { code = c; message = m; cause = some e }
