-- ===== src/Errors/Answer.antt =====
-- What a client gets to see of an error of src/tape_service/errors.py.
use s3p_tape_service.Prelude.{ℕ, ◌≡◌, refl}
use s3p_tape_service.Prelude.Text.{Text, codes}
use s3p_tape_service.Errors.{
  ErrorCode, status, code, ApiError, status_code, to_dict, api_error_handler, Result, raise, api,
}
use s3p_tape_service.Stdlib.{Json, str, obj, end, member}

-- The body `{"error": {"code": ..., "message": ...}}`
abbrev pub error_body : Text → Text → Json
error_body name message = obj (
    member (codes "error")
      (obj (member (codes "code") (str name) (member (codes "message") (str message) end))) end)

-- The result is an error that the client sees as a response with this status, code and message.
abbrev pub IsAnswered : {A : Type 0} → Result A → ℕ → Text → Text → Type 0
IsAnswered x number name message =
    (e : ApiError) × (x ≡ raise (api e)) × (api_error_handler e ≡ (number, error_body name message))

pub answered :
    {A : Type 0} (x : Result A) (c : ErrorCode) (message : Text)
    → x ≡ raise (api (record { error_code = c; message = message }))
    → IsAnswered x (status c) (code c) message
unfolding api_error_handler status_code to_dict
answered x c message raised = (record { error_code = c; message = message }, raised, refl)
