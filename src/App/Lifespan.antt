-- ===== src/App/Lifespan.antt =====
-- What `lifespan` of src/tape_service/main.py leaves behind.
use s3p_tape_service.Prelude.{
  ◌∙◌, Bool, false, if◌then◌else◌, append-nil, ◌≡◌, refl, ap, true, Option, none, some, List, ◌++◌,
  append_assoc,
}
use s3p_tape_service.Method.{Method, overridden, try_finally_do, ◌>>◌}
use s3p_tape_service.Errors.{Result, ok, raise, runtime_error}
use s3p_tape_service.Settings.{Settings}
use s3p_tape_service.Logging.Setup.{configure_logging}
use s3p_tape_service.Pools.{
  get_pool, open_pool, open_redis, open_async_redis, close_pool, close_redis, close_async_redis,
  closing,
}
use s3p_tape_service.App.{
  Closed, Process, Libraries, log_closed, set_up_logging, start_db, start_redis, start_async,
  end_db, end_redis, end_async, lifespan, health,
}

-- What comes of closing the pool of a variable, and what it leaves of the variable.
abbrev pub attempt : {X : Type 0} → (X → Result Unit) → Option X → Result Unit
attempt close none = ok tt
attempt close (some x) = close x

abbrev pub closed_to : {X : Type 0} → Option X → Result Unit → Option X × Result (Option X)
closed_to o (ok _) = (none, ok o)
closed_to o (raise e) = (o, raise e)

pub attempt-ok :
    {X : Type 0} (close : X → Result Unit)
    → ((x : X) → close x ≡ ok tt)
    → (o : Option X) → attempt close o ≡ ok tt
attempt-ok close closes none = refl
attempt-ok close closes (some x) = closes x

closing-closed_to : {X : Type 0} (x : X) (y : Result Unit) → closing x y ≡ closed_to (some x) y
closing-closed_to x (ok _) = refl
closing-closed_to x (raise e) = refl

pub close_pool-attempt :
    {X : Type 0} (close : X → Result Unit) (o : Option X)
    → close_pool close o ≡ closed_to o (attempt close o)
unfolding close_pool
close_pool-attempt close none = refl
close_pool-attempt close (some x) = closing-closed_to x (close x)

pub close_redis-attempt :
    {X : Type 0} (close : X → Result Unit) (o : Option X)
    → close_redis close o ≡ closed_to o (attempt close o)
unfolding close_redis
close_redis-attempt close none = refl
close_redis-attempt close (some x) = closing-closed_to x (close x)

pub close_async_redis-attempt :
    {X : Type 0} (close : X → Result Unit) (o : Option X)
    → close_async_redis close o ≡ closed_to o (attempt close o)
unfolding close_async_redis
close_async_redis-attempt close none = refl
close_async_redis-attempt close (some x) = closing-closed_to x (close x)

abbrev pub all_ok : Result Unit → Result Unit → Result Unit → Bool
all_ok (ok _) (ok _) (ok _) = true
all_ok _ _ _ = false

module _ {D P A : Type 0} where
  -- Every library accepts what the settings say.
  abbrev pub IsUsable : Libraries D P A → Settings → Type 0
  IsUsable libs s =
      (libs.is_level s.log_level ≡ true)
      × (libs.db_usable ≡ ok tt)
      × (libs.redis_ping ≡ ok tt)
      × (libs.async_ping ≡ ok tt)

  -- The process while it serves requests.
  abbrev pub opened : Libraries D P A → Settings → Process D P A → Process D P A
  unfolding configure_logging
  opened libs s p = record p {
    loggers = (configure_logging libs.is_level s.log_level p.loggers).0;
    db = some libs.made_db;
    redis = some libs.made_redis;
    async = some libs.made_async;
  }

  -- The pools that are open, the one that was opened last first.
  abbrev pub open_pools : Process D P A → List (Closed D P A)
  open_pools p =
      log_closed Closed.async_pool p.async
      ++ log_closed Closed.redis_pool p.redis
      ++ log_closed Closed.db_pool p.db

  -- The process `q` and the result of the requests after the pools were closed, by what comes of
  -- closing the asynchronous pool, that of Redis and that of the database: the first that raises
  -- keeps its own and all later ones open, and its exception replaces the result.
  abbrev pub ended_as :
      Result Unit
      → Result Unit
      → Result Unit
      → Process D P A
      → Result Unit
      → Process D P A × Result Unit
  ended_as (raise e) _ _ q result = (q, raise e)
  ended_as (ok _) (raise e) _ q result = (
    record q { async = none; closed = q.closed ++ log_closed Closed.async_pool q.async },
    raise e,
  )
  ended_as (ok _) (ok _) (raise e) q result = (
    record q {
      async = none;
      redis = none;
      closed =
          q.closed
          ++ (log_closed Closed.async_pool q.async ++ log_closed Closed.redis_pool q.redis);
    },
    raise e,
  )
  ended_as (ok _) (ok _) (ok _) q result = (
    record q { db = none; redis = none; async = none; closed = q.closed ++ open_pools q },
    result,
  )

  module _ (libs : Libraries D P A) where
    ended :
        (q : Process D P A) (result xa xr xd : Result Unit)
        → attempt libs.close_async q.async ≡ xa
        → attempt libs.close_redis q.redis ≡ xr
        → attempt libs.close_db q.db ≡ xd
        → let (p', x) = (end_async libs >> end_redis libs >> end_db libs) q in
          (p', overridden x result) ≡ ended_as xa xr xd q result
    unfolding end_async end_redis end_db
    ended q result (raise e) xr xd ea er ed =
        rw (close_async_redis-attempt libs.close_async q.async, ea) (simp append-nil)
    ended q result (ok _) (raise e) xd ea er ed =
        rw
          (
            close_async_redis-attempt libs.close_async q.async,
            ea,
            close_redis-attempt libs.close_redis q.redis,
            er,
          )
          (simp append-nil)
    ended q result (ok _) (ok _) (raise e) ea er ed =
        rw
          (
            close_async_redis-attempt libs.close_async q.async,
            ea,
            close_redis-attempt libs.close_redis q.redis,
            er,
            close_pool-attempt libs.close_db q.db,
            ed,
          )
          (simp (append_assoc, append-nil))
    ended q result (ok _) (ok _) (ok _) ea er ed =
        rw
          (
            close_async_redis-attempt libs.close_async q.async,
            ea,
            close_redis-attempt libs.close_redis q.redis,
            er,
            close_pool-attempt libs.close_db q.db,
            ed,
          )
          (simp append_assoc)

    probed :
        (select : D → Result Unit) (q : Process D P A) (result xa xr xd : Result Unit)
        → health select (ended_as xa xr xd q result).0.db
          ≡ (if all_ok xa xr xd then raise runtime_error else health select q.db)
    unfolding health get_pool
    probed select q result (raise e) xr xd = refl
    probed select q result (ok _) (raise e) xd = refl
    probed select q result (ok _) (ok _) (raise e) = refl
    probed select q result (ok _) (ok _) (ok _) = refl

    finished :
        (body : Method (Process D P A) Unit) (select : D → Result Unit) (p : Process D P A)
        → let (q, result) = body p in
          let xa = attempt libs.close_async q.async in
          let xr = attempt libs.close_redis q.redis in
          let xd = attempt libs.close_db q.db in
          let all = try_finally_do body (end_async libs >> end_redis libs >> end_db libs) p in
          (all ≡ ended_as xa xr xd q result)
          × (health select all.0.db
              ≡ (if all_ok xa xr xd then raise runtime_error else health select q.db))
    finished body select p =
        let (q, result) = body p in
        let all = ended q result _ _ _ refl refl refl in
        (
          all,
          ap (λ (w : Process D P A × Result Unit). health select w.0.db) all
              ∙ probed select q result _ _ _,
        )

  -- In a process in which nothing is open, and if every library accepts the settings: the requests
  -- are served with the three pools open. Afterwards, whatever was served and also if it raised, all
  -- pools that are open then have been closed, the one that was opened last first, none is left in
  -- the variables, so that the probe of the health raises, and what was raised is raised on; except
  -- that the first pool that cannot be closed stays open with all that come after it, and its
  -- exception is raised in place of what happened.
  pub lifespan_lem :
      (libs : Libraries D P A) (s : Settings) (body : Method (Process D P A) Unit)
      (select : D → Result Unit) (p : Process D P A)
      → IsUsable libs s
      → p.db ≡ none
      → p.redis ≡ none
      → p.async ≡ none
      → let (q, result) = body (opened libs s p) in
        let xa = attempt libs.close_async q.async in
        let xr = attempt libs.close_redis q.redis in
        let xd = attempt libs.close_db q.db in
        (lifespan libs (ok s) body p ≡ ended_as xa xr xd q result)
        × (health select (lifespan libs (ok s) body p).0.db
            ≡ (if all_ok xa xr xd then raise runtime_error else health select q.db))
  unfolding lifespan set_up_logging start_db start_redis start_async configure_logging open_pool
      open_redis open_async_redis
  lifespan_lem libs s body select p (level, db, redis, async) no_db no_redis no_async =
      rw (level, no_db, db, no_redis, redis, no_async, async) (finished libs body select _)
