-- ===== src/Store/Tape/Runs.antt =====
-- The log of runs, a counter and a stream: src/tape_service/store/tape.py, section "runs".
-- A stream is trimmed to about its last hundred entries by Redis; nothing reads it.
use s3p_tape_service.Prelude.{ℕ, [], ◌∷◌}
use s3p_tape_service.Prelude.Text.{Text, codes, str_of}
use s3p_tape_service.Action.{Action, pure, ◌>>=◌, ◌>>◌}
use s3p_tape_service.Keys.{runs_key, run_counter_key}
use s3p_tape_service.Redis.{Redis}
use s3p_tape_service.Stdlib.{Stdlib}

-- `now` is `datetime.now(UTC)`.
module _ (r : Redis) (lib : Stdlib) (now : ℕ) where
  open r use {Server, incr, xadd}

  unfoldable pub create_run : ℕ → Text → Action Server ℕ
  create_run user_id kind = do
    run_id ← incr run_counter_key
    xadd (runs_key user_id) (
        (codes "id", str_of run_id)
        ∷ (codes "kind", kind)
        ∷ (codes "status", codes "running")
        ∷ (codes "started_at", lib.isoformat now)
        ∷ [])
    pure run_id

  unfoldable pub finish_run : ℕ → ℕ → Text → ℕ → ℕ → Action Server Unit
  finish_run user_id run_id status added removed = xadd (runs_key user_id) (
      (codes "id", str_of run_id)
      ∷ (codes "status", status)
      ∷ (codes "finished_at", lib.isoformat now)
      ∷ (codes "added", str_of added)
      ∷ (codes "removed", str_of removed)
      ∷ [])
