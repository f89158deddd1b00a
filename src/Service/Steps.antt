-- ===== src/Service/Steps.antt =====
-- The commands by which the service writes to Redis on behalf of a user, each of which Redis carries
-- out with no other command in between.
use s3p_tape_service.Prelude.{ℕ, ◌≡◌, Bool, true, List, map}
use s3p_tape_service.Prelude.Text.{Text, str_of}
use s3p_tape_service.Keys.{
  cfg_key, cfg_sources_key, entries_key, runs_key, run_counter_key, lock_key, session_key,
  channel_for,
}
use s3p_tape_service.Redis.{Keyspace, Fields}
use s3p_tape_service.Redis.Command

-- `passes` is time that goes by on the server, between or during requests; `l` is the lifetime that
-- locks are given, a setting. The commands that take and free the lock are among them if `b` is true.
pub data Step (b : Bool) (l u : ℕ) (s : Keyspace) : Keyspace → Type 0 where
  passes : (seconds : ℕ) → Step b l u s (Command.elapse seconds s).0
  enters : (d p : ℕ) → Step b l u s (Command.zadd_nx (entries_key u) (str_of d) p s).0
  leaves : (d : ℕ) → Step b l u s (Command.zrem (entries_key u) (str_of d) s).0
  empties : Step b l u s (Command.delete (entries_key u) s).0
  configures : (m : Fields) → Step b l u s (Command.hset (cfg_key u) m s).0
  chooses : (ids : List ℕ) → Step b l u s (Command.sadd (cfg_sources_key u) (map str_of ids) s).0
  forgets : Step b l u s (Command.delete (cfg_sources_key u) s).0
  locks : b ≡ true → (token : Text) → Step b l u s (Command.set_nx_ex (lock_key u) token l s).0
  unlocks : b ≡ true → Step b l u s (Command.delete (lock_key u) s).0
  counts : Step b l u s (Command.incr run_counter_key s).0
  logs : (m : Fields) → Step b l u s (Command.xadd (runs_key u) m s).0
  tells : (frame : Text) → Step b l u s (Command.publish (channel_for u) frame s).0
  signs_in : (h blob : Text) (ttl : ℕ) → Step b l u s (Command.set_ex (session_key h) blob ttl s).0
  signs_out : (h : Text) → Step b l u s (Command.delete (session_key h) s).0

-- Some number of commands for the user, one after the other.
pub data Steps (b : Bool) (l u : ℕ) (s : Keyspace) : Keyspace → Type 0 where
  done : Steps b l u s s
  more : {t w : Keyspace} → Steps b l u s t → Step b l u t w → Steps b l u s w

pub one : {b : Bool} {l u : ℕ} {s t : Keyspace} → Step b l u s t → Steps b l u s t
one st = more done st

pub append :
    {b : Bool} {l u : ℕ} {s t w : Keyspace} → Steps b l u s t → Steps b l u t w → Steps b l u s w
append ps done = ps
append ps (more qs st) = more (append ps qs) st
