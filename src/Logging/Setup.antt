-- ===== src/Logging/Setup.antt =====
-- src/tape_service/logging_setup.py: `configure_logging`, on what it changes of the loggers of Python.
use s3p_tape_service.Prelude.{ℕ, Bool, false, List, [], ◌∷◌, if◌then◌else◌}
use s3p_tape_service.Prelude.Text.{Text, codes}
use s3p_tape_service.Method.{Method}
use s3p_tape_service.Errors.{ok, raise, value_error}
use s3p_tape_service.Redis.{update}

-- `json_to_stdout` is the handler that `configure_logging` makes, with its formatter.
pub data Handler : Type 0 where
  json_to_stdout : Handler
  other_handler : ℕ → Handler

-- The handlers and the level of the root logger, and whether a logger passes its records on.
pub record Loggers : Type 0 where
  pub handlers : List Handler
  pub level : Text
  pub propagate : Text → Bool

-- `root.setLevel(level)` raises `ValueError` on a name that is no level; `is_level` tells.
unfoldable pub configure_logging : (Text → Bool) → Text → Method Loggers Unit
configure_logging is_level level s =
    if is_level level
    then (
      record s {
        handlers = json_to_stdout ∷ [];
        level = level;
        propagate = update s.propagate (codes "uvicorn.access") false;
      },
      ok tt,
    )
    else (record s { handlers = json_to_stdout ∷ [] }, raise value_error)
