-- ===== src/Pools.antt =====
-- The pools of connections, one in each of src/tape_service/db/pool.py, store/client.py and
-- store/async_client.py: a variable of the module, `none` until it is opened. The libraries' pools
-- are an argument: the pool that the constructor makes, whether it can be used, which
-- `_pool.open(wait=True)` and `client.ping()` find out, and what comes of closing it.
use s3p_tape_service.Prelude.{◌≡◌, refl, Option, none, some}
use s3p_tape_service.Method.{Method}
use s3p_tape_service.Errors.{Result, ok, raise, runtime_error}

module _ {P : Type 0} (made : P) (usable : Result Unit) where
  abbrev pub if_usable : Result Unit → Result P
  if_usable (ok _) = ok made
  if_usable (raise e) = raise e

  -- The variable is set before the pool is opened for use.
  unfoldable pub open_pool : Method (Option P) P
  open_pool (some pool) = (some pool, ok pool)
  open_pool none = (some made, if_usable usable)

-- The variable is reset once the pool's own `close` has returned.
abbrev pub closing : {P : Type 0} → P → Result Unit → Option P × Result (Option P)
closing pool (ok _) = (none, ok (some pool))
closing pool (raise e) = (some pool, raise e)

-- The result is the pool that is closed; `close` is what comes of its own `close` or `aclose`.
unfoldable pub close_pool : {P : Type 0} → (P → Result Unit) → Method (Option P) (Option P)
close_pool close none = (none, ok none)
close_pool close (some pool) = closing pool (close pool)

unfoldable pub get_pool : {P : Type 0} → Option P → Result P
get_pool none = raise runtime_error
get_pool (some pool) = ok pool

-- `client` is the constructor `redis.Redis(connection_pool=...)` or its asynchronous namesake.
module _ {P C : Type 0} (client : P → C) where
  abbrev pub pinged : C → Result Unit → Result C
  pinged made (ok _) = ok made
  pinged made (raise e) = raise e

  unfoldable pub open_redis : P → Result Unit → Method (Option P) C
  open_redis made ping (some pool) = (some pool, ok (client pool))
  open_redis made ping none = (some made, pinged (client made) ping)

  unfoldable pub get_redis : Option P → Result C
  get_redis none = raise runtime_error
  get_redis (some pool) = ok (client pool)

  unfoldable pub open_async_redis : P → Result Unit → Method (Option P) C
  open_async_redis made ping (some pool) = (some pool, ok (client pool))
  open_async_redis made ping none = (some made, pinged (client made) ping)

  unfoldable pub get_async_redis : Option P → Result C
  get_async_redis none = raise runtime_error
  get_async_redis (some pool) = ok (client pool)

unfoldable pub close_redis : {P : Type 0} → (P → Result Unit) → Method (Option P) (Option P)
close_redis close none = (none, ok none)
close_redis close (some pool) = closing pool (close pool)

unfoldable pub close_async_redis : {P : Type 0} → (P → Result Unit) → Method (Option P) (Option P)
close_async_redis close none = (none, ok none)
close_async_redis close (some pool) = closing pool (close pool)

-- A second call of the same module gives the pool of the first, whatever the first returned.
pub open_pool-twice :
    {P : Type 0} (made again : P) (usable : Result Unit) (s : Option P)
    → open_pool again usable (open_pool made usable s).0
      ≡ ((open_pool made usable s).0, get_pool (open_pool made usable s).0)
unfolding open_pool get_pool
open_pool-twice made again usable none = refl
open_pool-twice made again usable (some pool) = refl

-- After a pool was closed without an exception, asking for it raises.
pub get_pool-close_pool :
    {P : Type 0} (close : P → Result Unit) (s : Option P)
    → ((pool : P) → close pool ≡ ok tt)
    → get_pool (close_pool close s).0 ≡ raise runtime_error
unfolding get_pool close_pool
get_pool-close_pool close none closes = refl
get_pool-close_pool close (some pool) closes = rw (closes pool) refl

-- The same of the clients of Redis.
pub open_redis-twice :
    {P C : Type 0} (client : P → C) (made again : P) (ping : Result Unit) (s : Option P)
    → open_redis client again ping (open_redis client made ping s).0
      ≡ ((open_redis client made ping s).0, get_redis client (open_redis client made ping s).0)
unfolding open_redis get_redis
open_redis-twice client made again ping none = refl
open_redis-twice client made again ping (some pool) = refl

pub get_redis-close_redis :
    {P C : Type 0} (client : P → C) (close : P → Result Unit) (s : Option P)
    → ((pool : P) → close pool ≡ ok tt)
    → get_redis client (close_redis close s).0 ≡ raise runtime_error
unfolding get_redis close_redis
get_redis-close_redis client close none closes = refl
get_redis-close_redis client close (some pool) closes = rw (closes pool) refl
