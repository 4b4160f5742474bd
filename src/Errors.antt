-- ===== src/Errors.antt =====
-- `AppError` and the HTTP response that it becomes (error.rs).
use Prim.Native.String.{◌++◌ as str_append}
use abyss_backend.Common.{ℕ, Bool, true, false, String, Result, ok, err}
pub mod Responses
pub mod Checks

-- The errors of diesel and r2d2 are what they display.
pub data AppError : Type 0 where
  config : String → AppError
  database : String → AppError
  pool : String → AppError
  not_found : String → AppError
  unauthorized : String → AppError
  unavailable : String → AppError
  validation : String → AppError
  internal : String → AppError

-- `Display`, as `thiserror` derives it from the `#[error]` attributes.
pub to_string : AppError → String
to_string (config message) = str_append "configuration error: " message
to_string (database message) = str_append "database error: " message
to_string (pool message) = str_append "connection pool error: " message
to_string (not_found message) = str_append "not found: " message
to_string (unauthorized message) = str_append "unauthorized: " message
to_string (unavailable message) = str_append "unavailable: " message
to_string (validation message) = str_append "validation error: " message
to_string (internal message) = str_append "internal error: " message

pub status_code : AppError → ℕ
status_code (validation _) = 400
status_code (unauthorized _) = 401
status_code (unavailable _) = 503
status_code (not_found _) = 404
status_code (config _) = 500
status_code (pool _) = 500
status_code (internal _) = 500
status_code (database _) = 500

abbrev pub generic_message : String
generic_message = "internal server error"

response_text : AppError → String
unfolding to_string
response_text (config _) = generic_message
response_text (pool _) = generic_message
response_text (internal _) = generic_message
response_text (database _) = generic_message
response_text (not_found message) = to_string (not_found message)
response_text (unauthorized message) = to_string (unauthorized message)
response_text (validation message) = to_string (validation message)
response_text (unavailable message) = to_string (unavailable message)

-- The status and the `error` member of the body.
unfoldable pub into_response : AppError → ℕ × String
unfolding status_code response_text
into_response error = (status_code error, response_text error)

-- An early return with a validation error.
abbrev pub reject_if : Bool → String → Result AppError (Unit {0})
reject_if true message = err (validation message)
reject_if false message = ok tt
