-- ===== src/Worker/Entry.antt =====
-- src/tape_service/worker_entry.py: `run`, the life of the worker process. What the scheduler does
-- between `start` and its end, by itself or by a signal, is an argument; the handlers of the signals
-- only tell it to end.
use s3p_tape_service.Prelude.{◌≡◌, true, false, none, some, List, ◌++◌, append_assoc}
use s3p_tape_service.Action.{Action}
use s3p_tape_service.Method.{Method, lift, call, ◌>>=◌, ◌>>◌, try_finally_do}
use s3p_tape_service.Errors.{Result, ok}
use s3p_tape_service.Settings.{Settings}
use s3p_tape_service.App.{
  Process, Libraries, set_up_logging, start_db, start_redis, end_redis, end_db, log_closed, Closed,
}
use s3p_tape_service.App.Lifespan.{attempt-ok, close_pool-attempt, close_redis-attempt}
use s3p_tape_service.Logging.Setup.{configure_logging}
use s3p_tape_service.Pools.{open_pool, open_redis}
use s3p_tape_service.Worker.Scheduler.{Job, build_scheduler}
use s3p_tape_service.Worker.Listener.Thread.{Listener, new_listener, start, stop}

-- The variables of the process and its listener.
abbrev pub Worker : Type 0 → Type 0 → Type 0 → Type 0 → Type 0
Worker D P A T = Process D P A × Listener T

-- No pool fails to be closed.
abbrev Closes : {D P A : Type 0} → Libraries D P A → Type 0
Closes {D} {P} libs = ((d : D) → libs.close_db d ≡ ok tt) × ((x : P) → libs.close_redis x ≡ ok tt)

module _ {D P A T : Type 0} where
  abbrev pub on_process : {X : Type 0} → Method (Process D P A) X → Method (Worker D P A T) X
  on_process m (p, l) = let (p', x) = m p in ((p', l), x)

  -- `listener = ScoreNotifyListener()` and `listener.start()`
  unfoldable pub start_listener : T → Action (Worker D P A T) Unit
  unfolding start
  start_listener made (p, l) = ((p, (start made new_listener).0), tt)

  unfoldable pub stop_listener : Action (Worker D P A T) Unit
  unfolding stop
  stop_listener (p, l) = ((p, (stop l).0), tt)

  -- `sched_start` is `sched.start()` of a scheduler with the jobs; `made` is the new thread.
  unfoldable pub run :
      Libraries D P A
      → Result Settings
      → T
      → (List Job → Method (Worker D P A T) Unit)
      → Method (Worker D P A T) Unit
  unfolding set_up_logging start_db start_redis start_listener stop_listener end_redis end_db
  run libs settings made sched_start = do
    s ← lift settings
    on_process (set_up_logging libs s.log_level)
    on_process (start_db libs)
    on_process (start_redis libs)
    call (start_listener made)
    try_finally_do (sched_start (build_scheduler s))
        (call stop_listener >> on_process (end_redis libs) >> on_process (end_db libs))

  -- The worker while the scheduler runs, from a process in which nothing is open.
  abbrev pub serving : Libraries D P A → Settings → T → Worker D P A T → Worker D P A T
  unfolding configure_logging
  serving libs s made (p, l) = (
    record p {
      loggers = (configure_logging libs.is_level s.log_level p.loggers).0;
      db = some libs.made_db;
      redis = some libs.made_redis;
    },
    record new_listener { thread = some made; stop = false },
  )

  -- The worker after its end.
  abbrev pub stopped : Worker D P A T → Worker D P A T
  stopped (p, l) = (
    record p {
      db = none;
      redis = none;
      closed = p.closed ++ log_closed Closed.redis_pool p.redis ++ log_closed Closed.db_pool p.db;
    },
    record l { thread = none; stop = true },
  )

  finished :
      (libs : Libraries D P A) (body : Method (Worker D P A T) Unit) (w : Worker D P A T)
      → Closes libs
      → let (q, result) = body w in
        try_finally_do body
          (call stop_listener >> on_process (end_redis libs) >> on_process (end_db libs))
          w
        ≡ (stopped q, result)
  unfolding stop_listener stop end_redis end_db
  finished libs body w (db_closes, redis_closes) =
      let ((p, l), result) = body w in
      rw
        (
          close_redis-attempt libs.close_redis p.redis,
          attempt-ok libs.close_redis redis_closes p.redis,
          close_pool-attempt libs.close_db p.db,
          attempt-ok libs.close_db db_closes p.db,
        )
        (simp append_assoc)

  -- In a process in which nothing is open, if the level, the database and Redis
  -- are accepted: the scheduler runs with the two jobs, both pools open and the listener started;
  -- when it ends, by itself or by raising, the listener is told to stop, the pools that are then open
  -- have been closed, Redis first, and what was raised is raised on; if no pool fails to be closed.
  run_lem :
      (libs : Libraries D P A) (s : Settings) (made : T)
      (sched_start : List Job → Method (Worker D P A T) Unit) (p : Process D P A) (l : Listener T)
      → libs.is_level s.log_level ≡ true
      → libs.db_usable ≡ ok tt
      → libs.redis_ping ≡ ok tt
      → p.db ≡ none
      → p.redis ≡ none
      → Closes libs
      → let (q, result) = sched_start (build_scheduler s) (serving libs s made (p, l)) in
        run libs (ok s) made sched_start (p, l) ≡ (stopped q, result)
  unfolding run set_up_logging start_db start_redis configure_logging open_pool open_redis
      start_listener start
  run_lem libs s made sched_start p l level db redis no_db no_redis closes =
      rw (level, no_db, db, no_redis, redis)
        (finished libs (sched_start (build_scheduler s)) _ closes)
