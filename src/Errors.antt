-- ===== src/Errors.antt =====
-- src/tape_service/errors.py, and the exceptions of Python that the service catches or lets pass.
pub mod Answer
use s3p_tape_service.Prelude.{ℕ, [], ◌∷◌}
use s3p_tape_service.Prelude.Text.{Text, codes}
use s3p_tape_service.Stdlib.{Json, str, obj, end, member}

pub data ErrorCode : Type 0 where
  invalid_request unauthorized forbidden not_found conflict already_scored : ErrorCode
  rate_limited tape_preparing tape_locked internal : ErrorCode

unfoldable pub status : ErrorCode → ℕ
status invalid_request = 400
status unauthorized = 401
status forbidden = 403
status not_found = 404
status conflict = 409
status already_scored = 409
status rate_limited = 429
status tape_preparing = 503
status tape_locked = 409
status internal = 500

unfoldable pub code : ErrorCode → Text
code invalid_request = codes "INVALID_REQUEST"
code unauthorized = codes "UNAUTHORIZED"
code forbidden = codes "FORBIDDEN"
code not_found = codes "NOT_FOUND"
code conflict = codes "CONFLICT"
code already_scored = codes "ALREADY_SCORED"
code rate_limited = codes "RATE_LIMITED"
code tape_preparing = codes "TAPE_PREPARING"
code tape_locked = codes "TAPE_LOCKED"
code internal = codes "INTERNAL"

pub record ApiError : Type 0 where
  pub error_code : ErrorCode
  pub message : Text

-- `ApiError(code, message)`: an empty message is replaced by the code's name.
unfoldable pub api_error : ErrorCode → Text → ApiError
api_error c [] = record { error_code = c; message = code c }
api_error c (x ∷ m) = record { error_code = c; message = x ∷ m }

unfoldable pub status_code : ApiError → ℕ
unfolding status
status_code e = status e.error_code

unfoldable pub to_dict : ApiError → Json
unfolding code
to_dict e = obj (
    member (codes "error")
      (obj (
        member (codes "code") (str (code e.error_code))
          (member (codes "message") (str e.message) end)))
      end)

-- `api_error_handler`: the status and the body of the response.
unfoldable pub api_error_handler : ApiError → ℕ × Json
unfolding status_code to_dict
api_error_handler e = (status_code e, to_dict e)

-- What a call may raise. `db_error` is any failure of the database or of its driver.
pub data Exception : Type 0 where
  api : ApiError → Exception
  already_scored_error unique_violation value_error key_error type_error db_error runtime_error :
      Exception

pub data Result (A : Type 0) : Type 0 where
  ok : A → Result A
  raise : Exception → Result A
