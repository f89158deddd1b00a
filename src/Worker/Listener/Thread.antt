-- ===== src/Worker/Listener/Thread.antt =====
-- src/tape_service/worker/listener.py: the rest of the class `ScoreNotifyListener`. A thread is what
-- `threading.Thread(...)` returns; what psycopg delivers to it is an argument.
use s3p_tape_service.Prelude.{ℕ, Bool, true, false, Option, none, some, List, if◌then◌else◌}
use s3p_tape_service.Prelude.Text.{Text, codes, text_eq}
use s3p_tape_service.Action.{Action, pure, for_each}
use s3p_tape_service.Errors.{Exception, Result, ok, raise}
use s3p_tape_service.Redis.{Redis}
use s3p_tape_service.Stdlib.{Stdlib}
use s3p_tape_service.Worker.Listener.{handle}

-- `CHANNEL`
abbrev pub notify_channel : Text
notify_channel = codes "tape_score_inserted"

-- `_thread`, `_stop.is_set()`, and whether `_conn` is a connection
pub record Listener (T : Type 0) : Type 0 where
  pub thread : Option T
  pub stop : Bool
  pub conn : Bool

-- `__init__`
abbrev pub new_listener : {T : Type 0} → Listener T
new_listener = record { thread = none; stop = false; conn = false }

module _ {T : Type 0} where
  -- `made` is the new thread; the result is the one that is started.
  unfoldable pub start : T → Action (Listener T) (Option T)
  start made l = elim l.thread [
    | some running ↦ (l, none)
    | none ↦ (record l { thread = some made; stop = false }, some made)
  ]

  -- The result is whether the connection is closed here, and the thread that is waited for. The
  -- thread itself sets `_conn`.
  unfoldable pub stop : Action (Listener T) (Bool × Option T)
  stop l = (record l { thread = none; stop = true }, (l.conn, l.thread))

-- `psycopg.Notify`
pub record Notify : Type 0 where
  pub channel : Text
  pub payload : Text

-- What the loop of one thread goes through: it waits in `conn.notifies(timeout=1.0)` after some
-- notifications; or this ends, and the loop looks at the event again; or this raises; or the
-- event is set when the loop looks.
pub data Rounds : Type 0 where
  waits : List Notify → Rounds
  times_out : List Notify → Rounds → Rounds
  breaks : List Notify → Exception → Rounds
  finds_stop : Rounds

-- Where a thread is: in the loop, or at its end.
pub data Phase : Type 0 where
  listening : Phase
  ended : Result Unit → Phase

-- `except psycopg.OperationalError`, which `operational` tells, and `finally`
module _ {T : Type 0} (operational : Exception → Bool) where
  unfoldable pub leave : Result Unit → Listener T → Listener T × Phase
  leave (ok _) l = (record l { conn = false }, ended (ok tt))
  leave (raise e) l = (record l { conn = false }, ended (if operational e then ok tt else raise e))

  unfoldable pub after_loop : Phase → Listener T → Listener T × Phase
  unfolding leave
  after_loop listening l = (record l { conn = true }, listening)
  after_loop (ended x) l = leave x l

module _ (r : Redis) (lib : Stdlib) (now : ℕ) where
  open r use {Server}

  -- The body of the inner loop.
  unfoldable pub receive : Notify → Action Server Unit
  unfolding handle
  receive n = if text_eq n.channel notify_channel then handle r lib now n.payload else pure tt

  -- `while not self._stop.is_set()`
  unfoldable pub listen : Rounds → Action Server Phase
  unfolding receive for_each
  listen (waits batch) srv = ((for_each batch receive srv).0, listening)
  listen (times_out batch rounds) srv = listen rounds (for_each batch receive srv).0
  listen (breaks batch e) srv = ((for_each batch receive srv).0, ended (raise e))
  listen finds_stop srv = (srv, ended (ok tt))

  module _ {T : Type 0} (operational : Exception → Bool) where
    -- `_run`: `connected` is what comes of connecting and of the statement LISTEN.
    unfoldable pub run : Result Unit → Rounds → Action (Listener T × Server) Phase
    unfolding listen after_loop leave
    run (raise e) rounds (l, srv) =
        let (l', phase) = leave operational (raise e) l in ((l', srv), phase)
    run (ok _) rounds (l, srv) =
        let (srv', reached) = listen rounds srv in
        let (l', phase) = after_loop operational reached l in ((l', srv'), phase)
