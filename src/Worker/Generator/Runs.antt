-- ===== src/Worker/Generator/Runs.antt =====
-- A run of the generator on the keyspace, step by step.
use s3p_tape_service.Prelude.{
  ℕ, ◌+◌, ◌<◌, ◌≡◌, refl, Bool, true, false, Option, none, some, List, [], ◌∷◌, ◌++◌, map, length,
  All, All-map, if◌then◌else◌, arith,
}
use s3p_tape_service.Prelude.Text.{Text, codes, str_of, text_eq_refl}
use s3p_tape_service.Errors.{Exception, Result, ok, raise}
use s3p_tape_service.Keys.{cfg_key, entries_key, runs_key, lock_key, run_counter_key}
use s3p_tape_service.Redis.{Keyspace, Fields, reference}
use s3p_tape_service.Redis.Command
use s3p_tape_service.Redis.Command.{is_some}
use s3p_tape_service.Stdlib.{Stdlib}
use s3p_tape_service.Settings.{Settings}
use s3p_tape_service.Database.{Database}
use s3p_tape_service.Db.Candidates.{candidates_for_user}
use s3p_tape_service.Store.Events.{
  make_lock_acquired, make_lock_released, make_schedule_started, make_schedule_completed,
  make_tape_regenerated, publish,
}
use s3p_tape_service.Store.Lock.{release, holds_token}
use s3p_tape_service.Store.Lock.Laws.{holder}
use s3p_tape_service.Store.Tape.Config.{TapeConfig, clear_dirty}
use s3p_tape_service.Store.Tape.Runs.{finish_run}
use s3p_tape_service.Store.Tape.View.{Tape, rows, IsTape, put_zset, Holds}
use s3p_tape_service.Store.Tape.Append.{new_entries, append_entries-tape}
use s3p_tape_service.Store.Tape.Operations.{
  page, last_position, last_row, start_after, start_after-low,
}
use s3p_tape_service.Store.Tape.Laws.{list_entries_page-tape}
use s3p_tape_service.Worker.Generator.{
  guarded, after_last, prepare, fill, after_prepare, locked_run, kind_of,
}
use s3p_tape_service.Worker.Generator.Frames.{said, added_frames, announce_all}

module _ (lib : Stdlib) (st : Settings) (pg : Database) (db : pg.Db) (token : Text) (now : ℕ)
    (u : ℕ) where
  -- One entry more in the stream of runs.
  abbrev pub logged : Fields → Keyspace → Keyspace
  logged m s = (Command.xadd (runs_key u) m s).0

  abbrev pub run_ended : ℕ → Text → ℕ → ℕ → Fields
  run_ended i status added removed =
      (codes "id", str_of i)
      ∷ (codes "status", status)
      ∷ (codes "finished_at", lib.isoformat now)
      ∷ (codes "added", str_of added)
      ∷ (codes "removed", str_of removed)
      ∷ []

  abbrev pub run_begun : ℕ → Text → Fields
  run_begun i kind =
      (codes "id", str_of i)
      ∷ (codes "kind", kind)
      ∷ (codes "status", codes "running")
      ∷ (codes "started_at", lib.isoformat now)
      ∷ []

  abbrev pub cleared : Bool → Keyspace → Keyspace
  cleared dirty s =
      if dirty then (Command.hset (cfg_key u) ((codes "dirty", codes "0") ∷ []) s).0 else s

  -- The keyspace after `fill` on a tape `t`, where the run is `i` and adds `new`.
  abbrev pub filled : Bool → ℕ → ℕ → Tape → Tape → Keyspace → Keyspace
  filled dirty i removed t new s =
      said u (lib.dumps (make_schedule_completed lib now u i (codes "ok")) ∷ []) (
        said u
          (lib.dumps (make_tape_regenerated lib now u (kind_of dirty) (length new) removed) ∷ [])
          (logged (run_ended i (codes "ok") (length new) removed) (
            cleared dirty (
              said u (added_frames lib st pg db token now u dirty new)
                (put_zset s u (rows (t ++ new)))))))

  pub fill-filled :
      (dirty : Bool) (s : Keyspace) (cfg : TapeConfig) (sources : List ℕ) (i removed start : ℕ)
      (existing ids : List ℕ) (t : Tape)
      → Holds s u t
      → All (λ e. e.0 < start + 0) t
      → candidates_for_user pg db u sources cfg.date_from cfg.date_to cfg.ordering existing ≡ ok ids
      → fill reference lib st pg db token now u dirty cfg sources i (removed, start, existing) s ≡ (
        filled dirty i removed t (new_entries t start 0 ids) s,
        ok (kind_of dirty, length (new_entries t start 0 ids)),
      )
  unfolding fill publish finish_run clear_dirty
  fill-filled true s cfg sources i removed start existing ids t h low found = rw (
    found,
    append_entries-tape s u i start t ids h low,
    announce_all lib st pg db token now u true,
  )
  fill-filled false s cfg sources i removed start existing ids t h low found = rw (
    found,
    append_entries-tape s u i start t ids h low,
    announce_all lib st pg db token now u false,
  )

  -- `except Exception:` on the keyspace.
  abbrev pub failed : Bool → ℕ → ℕ → Keyspace → Keyspace
  failed dirty i removed s =
      said u (lib.dumps (make_schedule_completed lib now u i (codes "error")) ∷ []) (
        said u (lib.dumps (make_tape_regenerated lib now u (kind_of dirty) 0 removed) ∷ [])
          (logged (run_ended i (codes "error") 0 removed) s))

  fill-failed :
      (dirty : Bool) (s : Keyspace) (cfg : TapeConfig) (sources : List ℕ) (i removed start : ℕ)
      (existing : List ℕ) (e : Exception)
      → candidates_for_user pg db u sources cfg.date_from cfg.date_to cfg.ordering existing
        ≡ raise e
      → after_prepare reference lib st pg db token now u dirty cfg sources i
          (ok (removed, start, existing))
          s
        ≡ (failed dirty i removed s, raise e)
  unfolding after_prepare publish finish_run
  fill-failed dirty s cfg sources i removed start existing e broken = rw broken

  abbrev pub next_run : Keyspace → ℕ
  next_run s = s.counters run_counter_key + 1

  -- The keyspace when the inner `try` is entered.
  abbrev pub begun : Bool → Keyspace → Keyspace
  begun dirty s =
      said u (lib.dumps (make_schedule_started lib now u (next_run s) (kind_of dirty)) ∷ []) (
        logged (run_begun (next_run s) (kind_of dirty))
          (Command.incr run_counter_key
            (said u (lib.dumps (make_lock_acquired lib now u) ∷ []) s)).0)

  abbrev pub emptied : Keyspace → Keyspace
  emptied s = (Command.delete (entries_key u) s).0

  emptied-Holds : (s : Keyspace) → Holds (emptied s) u []
  emptied-Holds s = rw (text_eq_refl (entries_key u))

  pub locked_run-full :
      (s : Keyspace) (cfg : TapeConfig) (sources ids : List ℕ)
      → candidates_for_user pg db u sources cfg.date_from cfg.date_to cfg.ordering [] ≡ ok ids
      → locked_run reference lib st pg db token now u true cfg sources s ≡ (
        filled true
            (next_run s)
            (length (s.zsets (entries_key u)))
            []
            (new_entries [] 0 0 ids)
            (emptied (begun true s)),
        ok (codes "full", length (new_entries [] 0 0 ids)),
      )
  unfolding locked_run publish
  locked_run-full s cfg sources ids found = rw (
      fill-filled true (emptied (begun true s)) cfg sources (next_run s)
        (length (s.zsets (entries_key u))) 0 [] ids [] (emptied-Holds (begun true s)) tt found)

  pub locked_run-failed :
      (s : Keyspace) (cfg : TapeConfig) (sources : List ℕ) (e : Exception)
      → candidates_for_user pg db u sources cfg.date_from cfg.date_to cfg.ordering [] ≡ raise e
      → locked_run reference lib st pg db token now u true cfg sources s ≡ (
        failed true (next_run s) (length (s.zsets (entries_key u))) (emptied (begun true s)),
        raise e,
      )
  unfolding locked_run publish
  locked_run-failed s cfg sources e broken = rw (
      fill-failed true (emptied (begun true s)) cfg sources (next_run s)
        (length (s.zsets (entries_key u))) 0 [] e broken)

  after_last_lem : (o : Option ℕ) → after_last o ≡ start_after o
  unfolding after_last
  after_last_lem none = refl
  after_last_lem (some p) = refl

  -- Every position of a tape is below the first one of a top-up.
  pub positions_low : (x : Tape) → IsTape x → All (λ e. e.0 < after_last (last_position x) + 0) x
  positions_low x tape =
      All-map (λ e. e.0 < start_after (last_position x))
        (λ e. e.0 < after_last (last_position x) + 0)
        (λ e p. omega (arith, after_last_lem (last_position x), p)) x (start_after-low x tape)

  -- The documents that a top-up asks the database to leave out.
  abbrev pub existing_ids : Tape → List ℕ
  existing_ids t = map (λ e. e.1) (page t none 10000)

  module _ (s : Keyspace) (cfg : TapeConfig) (sources : List ℕ) (t : Tape) (h : Holds s u t) where
    prepare-tape :
        prepare reference lib st pg db token now u false (begun false s)
        ≡ (begun false s, ok (0, after_last (last_position t), existing_ids t))
    unfolding prepare
    prepare-tape =
        rw (last_row t (begun false s) u h, list_entries_page-tape (begun false s) u t none 10000 h)

    pub locked_run-topped_up :
        (ids : List ℕ)
        → IsTape t
        → candidates_for_user pg db u sources cfg.date_from cfg.date_to cfg.ordering
            (existing_ids t)
          ≡ ok ids
        → let new = new_entries t (after_last (last_position t)) 0 ids in
          locked_run reference lib st pg db token now u false cfg sources s ≡ (
            filled false (next_run s) 0 t new (begun false s),
            ok (codes "incremental", length new),
          )
    unfolding locked_run publish
    locked_run-topped_up ids tape found = rw (
      prepare-tape,
      fill-filled false (begun false s) cfg sources (next_run s) 0 (after_last (last_position t))
          (existing_ids t) ids t h (positions_low t tape) found,
    )

  -- The keyspace once the lock is taken, and once it is released again.
  abbrev pub locked : Keyspace → Keyspace
  locked s = (Command.set_ex (lock_key u) token st.worker_advisory_lock_ttl_seconds s).0

  abbrev pub unlocked : Keyspace → Keyspace
  unlocked s =
      said u (lib.dumps (make_lock_released lib now u) ∷ []) (Command.delete (lock_key u) s).0

  -- Around a run that leaves the lock with its token.
  pub guarded-run :
      (dirty : Bool) (s s' : Keyspace) (x : Result (Text × ℕ)) (cfg : TapeConfig) (sources : List ℕ)
      → is_some (holder s u) ≡ false
      → locked_run reference lib st pg db token now u dirty cfg sources (locked s) ≡ (s', x)
      → holder s' u ≡ some token
      → guarded reference lib st pg db token now u dirty cfg sources s ≡ (unlocked s', x)
  unfolding guarded publish release holds_token
  guarded-run dirty s s' x cfg sources free ran own = rw (free, ran, own, text_eq_refl token)
