-- ===== src/App.antt =====
-- src/tape_service/main.py and src/tape_service/api/health.py: what the API process opens and closes,
-- and the probe of its health. The libraries' pools are arguments, as in Pools.antt; what FastAPI
-- does between start and end is an argument too.
pub mod Lifespan
pub mod Create
use s3p_tape_service.Prelude.{Bool, Option, none, some, List, [], ◌∷◌, ◌++◌}
use s3p_tape_service.Prelude.Text.{Text, codes}
use s3p_tape_service.Action.{Action}
use s3p_tape_service.Action
use s3p_tape_service.Method.{no_value, Method, pure, lift, ◌>>=◌, ◌>>◌, try_finally_do}
use s3p_tape_service.Errors.{Result, ok, raise}
use s3p_tape_service.Settings.{Settings}
use s3p_tape_service.Stdlib.{Json, str, obj, member, end}
use s3p_tape_service.Logging.Setup.{Loggers, configure_logging}
use s3p_tape_service.Pools.{
  open_pool, close_pool, get_pool, open_redis, close_redis, open_async_redis, close_async_redis,
}

-- A pool whose `close` has been called.
pub data Closed (D P A : Type 0) : Type 0 where
  db_pool : D → Closed D P A
  redis_pool : P → Closed D P A
  async_pool : A → Closed D P A

-- The variables of the modules, the loggers, and the pools that were closed, in order.
pub record Process (D P A : Type 0) : Type 0 where
  pub loggers : Loggers
  pub db : Option D
  pub redis : Option P
  pub async : Option A
  pub closed : List (Closed D P A)

-- What the libraries make of the settings, whether each of it can be used, and closed.
pub record Libraries (D P A : Type 0) : Type 0 where
  pub is_level : Text → Bool
  pub made_db : D
  pub db_usable : Result Unit
  pub made_redis : P
  pub redis_ping : Result Unit
  pub made_async : A
  pub async_ping : Result Unit
  pub close_db : D → Result Unit
  pub close_redis : P → Result Unit
  pub close_async : A → Result Unit

module _ {D P A : Type 0} where
  abbrev pub log_closed : {X : Type 0} → (X → Closed D P A) → Option X → List (Closed D P A)
  log_closed f none = []
  log_closed f (some x) = f x ∷ []

  -- The pool that a call of `close_pool` or its like has closed.
  abbrev pub log_result :
      {X : Type 0} → (X → Closed D P A) → Result (Option X) → List (Closed D P A)
  log_result f (ok o) = log_closed f o
  log_result f (raise e) = []

  module _ (libs : Libraries D P A) where
    unfoldable pub set_up_logging : Text → Method (Process D P A) Unit
    unfolding configure_logging
    set_up_logging level p =
        let (s, x) = configure_logging libs.is_level level p.loggers in
        (record p { loggers = s }, x)

    unfoldable pub start_db : Method (Process D P A) D
    unfolding open_pool
    start_db p = let (s, x) = open_pool libs.made_db libs.db_usable p.db in (record p { db = s }, x)

    unfoldable pub start_redis : Method (Process D P A) P
    unfolding open_redis
    start_redis p =
        let (s, x) = open_redis (λ pool. pool) libs.made_redis libs.redis_ping p.redis in
        (record p { redis = s }, x)

    unfoldable pub start_async : Method (Process D P A) A
    unfolding open_async_redis
    start_async p =
        let (s, x) = open_async_redis (λ pool. pool) libs.made_async libs.async_ping p.async in
        (record p { async = s }, x)

    unfoldable pub end_db : Method (Process D P A) Unit
    unfolding close_pool
    end_db p =
        let (s, c) = close_pool libs.close_db p.db in
        (record p { db = s; closed = p.closed ++ log_result Closed.db_pool c }, no_value c)

    unfoldable pub end_redis : Method (Process D P A) Unit
    unfolding close_redis
    end_redis p =
        let (s, c) = close_redis libs.close_redis p.redis in
        (record p { redis = s; closed = p.closed ++ log_result Closed.redis_pool c }, no_value c)

    unfoldable pub end_async : Method (Process D P A) Unit
    unfolding close_async_redis
    end_async p =
        let (s, c) = close_async_redis libs.close_async p.async in
        (record p { async = s; closed = p.closed ++ log_result Closed.async_pool c }, no_value c)

  -- `body` is what happens at the `yield`.
  unfoldable pub lifespan :
      Libraries D P A → Result Settings → Method (Process D P A) Unit → Method (Process D P A) Unit
  unfolding set_up_logging start_db start_redis start_async end_async end_redis end_db
  lifespan libs settings body = do
    s ← lift settings
    set_up_logging libs s.log_level
    start_db libs
    start_redis libs
    start_async libs
    try_finally_do body (end_async libs >> end_redis libs >> end_db libs)

-- `select` is what comes of the statement SELECT 1 on a connection of the pool.
unfoldable pub health : {D : Type 0} → (D → Result Unit) → Option D → Result Json
unfolding get_pool
health select db = elim (get_pool db) [
  | raise e ↦ raise e
  | ok pool ↦ elim (select pool) [
    | raise e ↦ raise e
    | ok _ ↦ ok (
        obj
          (member (codes "status") (str (codes "ok")) (member (codes "db") (str (codes "ok")) end)))
  ]
]
