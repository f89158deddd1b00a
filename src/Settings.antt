-- ===== src/Settings.antt =====
-- src/tape_service/settings.py: the settings that the modelled code reads.
use s3p_tape_service.Prelude.{ℕ, Bool, List, [], ◌∷◌, if◌then◌else◌}
use s3p_tape_service.Prelude.Text.{Text, codes}
use s3p_tape_service.Errors.{Result, ok, raise, value_error}
use s3p_tape_service.Redis.Command.{has}

pub record Settings : Type 0 where
  pub session_cookie_name : Text
  pub session_cookie_secure : Bool
  pub session_cookie_samesite : Text
  pub session_absolute_ttl_days : ℕ
  pub session_idle_ttl_days : ℕ
  pub cors_allow_origins : List Text
  pub login_rate_limit_per_ip : ℕ
  pub login_rate_limit_window_seconds : ℕ
  pub worker_interval_seconds : ℕ
  pub worker_advisory_lock_ttl_seconds : ℕ
  pub log_level : Text

-- `_samesite_lower`; `lower` is `str.lower`.
unfoldable pub samesite_lower : (Text → Text) → Text → Result Text
samesite_lower lower v =
    if has (codes "lax" ∷ codes "strict" ∷ codes "none" ∷ []) (lower v)
    then ok (lower v)
    else raise value_error
