-- ===== src/Worker/Generator.antt =====
-- src/tape_service/worker/generator.py: the worker regenerates or tops up one user's tape. `token` is
-- what `secrets.token_hex(16)` returns and `now` stands for each reading of the clock in one call:
-- both only go into texts. Calls of Redis do not raise here; those of the database may.
pub mod Implementation
pub mod Frames
pub mod Runs
pub mod Granted
pub mod Outcome
pub mod Wanted
pub mod Order
pub mod Skipped
pub mod Commands
pub mod Overtaken
pub mod Phases
pub mod Turns
use s3p_tape_service.Prelude.{
  ℕ, ◌+◌, Bool, true, false, Option, none, some, List, [], ◌∷◌, map, length, if◌then◌else◌,
}
use s3p_tape_service.Prelude.Text.{Text, codes}
use s3p_tape_service.Action.{Action, for_each}
use s3p_tape_service.Action
use s3p_tape_service.Method.{Method, pure, fail, lift, call, ◌>>=◌, ◌>>◌, try_except, try_finally}
use s3p_tape_service.Errors.{Exception, Result, ok, raise}
use s3p_tape_service.Redis.{Redis}
use s3p_tape_service.Stdlib.{Stdlib, Json}
use s3p_tape_service.Settings.{Settings}
use s3p_tape_service.Database.{Database}
use s3p_tape_service.Db.Candidates.{candidates_for_user}
use s3p_tape_service.Store.Events.{
  publish, make_lock_acquired, make_lock_released, make_schedule_started, make_schedule_completed,
  make_tape_entry_added, make_tape_regenerated,
}
use s3p_tape_service.Store.Lock.{acquire, hold}
use s3p_tape_service.Store.Tape.Config.{TapeConfig, get_config, get_config_sources, clear_dirty}
use s3p_tape_service.Store.Tape.Entries.{
  list_entries_page, max_position, append_entries, delete_all_entries,
}
use s3p_tape_service.Store.Tape.Runs.{create_run, finish_run}

-- `("skipped", 0)`
abbrev pub skipped : Text × ℕ
skipped = (codes "skipped", 0)

unfoldable pub kind_of : Bool → Text
kind_of dirty = if dirty then codes "full" else codes "incremental"

-- `max_position(...) + 1`
unfoldable pub after_last : Option ℕ → ℕ
after_last none = 0
after_last (some p) = p + 1

module _ (r : Redis) (lib : Stdlib) (st : Settings) (pg : Database) (db : pg.Db) (token : Text)
    (now : ℕ) (user_id : ℕ) (dirty : Bool) where
  open r use {Server}

  pub emit : Json → Method Server ℕ
  unfolding publish
  emit event = call (publish r lib user_id event)

  pub when_dirty : Action Server Unit → Method Server Unit
  when_dirty m = if dirty then call m else pure tt

  -- The first statement of the inner `try`: how many entries were removed, the first position, and
  -- the documents that the tape holds.
  pub prepare : Method Server (ℕ × ℕ × List ℕ)
  unfolding delete_all_entries after_last
  prepare =
      if dirty
      then (do removed ← call (delete_all_entries r user_id); pure (removed, 0, []))
      else (do
        last ← call (max_position r user_id)
        page ← list_entries_page r user_id none 10000
        pure (0, after_last last, map (λ e. e.1) page))

  pub announce : ℕ × ℕ → Action Server ℕ
  announce (position, doc_id) =
      publish r lib user_id (make_tape_entry_added lib now user_id position doc_id)

  -- The rest of the inner `try`.
  pub fill : TapeConfig → List ℕ → ℕ → ℕ × ℕ × List ℕ → Method Server (Text × ℕ)
  unfolding emit when_dirty announce kind_of
  fill cfg sources run_id (removed, start, existing) = do
    doc_ids ←
        lift (
          candidates_for_user pg db user_id sources cfg.date_from cfg.date_to cfg.ordering existing)
    appended ← call (append_entries r user_id doc_ids run_id start)
    call (for_each appended announce)
    let added = length appended
    when_dirty (clear_dirty r user_id)
    call (finish_run r lib now user_id run_id (codes "ok") added removed)
    emit (make_tape_regenerated lib now user_id (kind_of dirty) added removed)
    emit (make_schedule_completed lib now user_id run_id (codes "ok"))
    pure (kind_of dirty, added)

  -- `except Exception:`
  pub on_error : ℕ → ℕ → Exception → Method Server (Text × ℕ)
  unfolding emit kind_of
  on_error run_id removed e = do
    call (finish_run r lib now user_id run_id (codes "error") 0 removed)
    emit (make_tape_regenerated lib now user_id (kind_of dirty) 0 removed)
    emit (make_schedule_completed lib now user_id run_id (codes "error"))
    fail e

  -- `removed` is 0 in the handler if `prepare` raised.
  pub after_prepare : TapeConfig → List ℕ → ℕ → Result (ℕ × ℕ × List ℕ) → Method Server (Text × ℕ)
  unfolding fill on_error
  after_prepare cfg sources run_id (raise e) = on_error run_id 0 e
  after_prepare cfg sources run_id (ok p) =
      try_except (fill cfg sources run_id p) (on_error run_id p.0)

  -- The body of the `with` statement, once the lock is held.
  pub locked_run : TapeConfig → List ℕ → Method Server (Text × ℕ)
  unfolding emit prepare after_prepare kind_of create_run
  locked_run cfg sources = do
    emit (make_lock_acquired lib now user_id)
    run_id ← call (create_run r lib now user_id (kind_of dirty))
    emit (make_schedule_started lib now user_id run_id (kind_of dirty))
    Action.◌>>=◌ prepare (after_prepare cfg sources run_id)

  pub announce_released : Bool → Action Server Unit
  unfolding publish
  announce_released true =
      Action.◌>>◌ (publish r lib user_id (make_lock_released lib now user_id)) (Action.pure tt)
  announce_released false = Action.pure tt

  -- The outer `try ... finally` around the `with` statement; `got_lock` is `got`.
  pub guarded : TapeConfig → List ℕ → Method Server (Text × ℕ)
  unfolding locked_run hold announce_released acquire
  guarded cfg sources = do
    got ← call (acquire r st token user_id)
    try_finally (hold r token user_id got (if got then locked_run cfg sources else pure skipped))
        (announce_released got)

  pub with_sources : TapeConfig → List ℕ → Method Server (Text × ℕ)
  unfolding guarded when_dirty
  with_sources cfg [] = do
    when_dirty (Action.◌>>◌ (delete_all_entries r user_id) (clear_dirty r user_id))
    pure skipped
  with_sources cfg (s ∷ sources) = guarded cfg (s ∷ sources)

  pub with_config : Option TapeConfig → Method Server (Text × ℕ)
  unfolding with_sources
  with_config none = pure skipped
  with_config (some cfg) = do sources ← get_config_sources r user_id; with_sources cfg sources

  pub generate_for_user : Method Server (Text × ℕ)
  unfolding with_config get_config
  generate_for_user = do cfg ← get_config r lib user_id; with_config cfg
