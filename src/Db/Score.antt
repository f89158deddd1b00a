-- ===== src/Db/Score.antt =====
-- src/tape_service/db/score.py
use s3p_tape_service.Prelude.{ℕ, Option}
use s3p_tape_service.Prelude.Text.{Text}
use s3p_tape_service.Action.{Action}
use s3p_tape_service.Errors.{Result, ok, raise, unique_violation, already_scored_error}
use s3p_tape_service.Stdlib.{Stdlib, Json}
use s3p_tape_service.Database.{Database}

-- `except UniqueViolation as e: raise AlreadyScored(str(e)) from e`
abbrev pub rename_violation : {A : Type 0} → Result A → Result A
rename_violation (ok a) = ok a
rename_violation (raise unique_violation) = raise already_scored_error
rename_violation (raise e) = raise e

unfoldable pub save :
    (pg : Database) → Stdlib → ℕ → ℕ → ℕ → Json → Option Text → Action pg.Db (Result ℕ)
save pg lib user_id document_id role_id score_payload comment db =
    let (db', result) =
      pg.save_score db user_id document_id role_id (lib.dumps score_payload) comment in
    (db', rename_violation result)
