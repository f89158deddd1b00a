-- ===== src/Service/Follows.antt =====
-- Actions that write to Redis by the service's commands for one user only, one rule for each way to
-- build an action.
use s3p_tape_service.Prelude.{ℕ, refl, Bool, true, false, List, [], ◌∷◌, map, if◌then◌else◌}
use s3p_tape_service.Prelude.Text.{Text, str_of}
use s3p_tape_service.Action.{Action, pure, ◌>>=◌, for_each, for_map}
use s3p_tape_service.Method.{Method, call, lift, continue, or_else}
use s3p_tape_service.Method
use s3p_tape_service.Errors.{Exception, Result, ok, raise}
use s3p_tape_service.Keys.{
  cfg_key, cfg_sources_key, entries_key, runs_key, run_counter_key, lock_key, session_key,
  channel_for,
}
use s3p_tape_service.Redis.{Keyspace, Fields}
use s3p_tape_service.Redis.Command
use s3p_tape_service.Service.Steps.{
  Steps, done, one, append, enters, leaves, empties, configures, chooses, forgets, locks, unlocks,
  counts, logs, tells, signs_in, signs_out,
}

pub record Follows {A : Type 0} (b : Bool) (l u : ℕ) (m : Action Keyspace A) : Type 0 where
  pub at : (s : Keyspace) → Steps b l u s (m s).0

module _ {b : Bool} {l u : ℕ} where
  pub Follows-pure : {A : Type 0} (a : A) → Follows b l u (pure a)
  Follows-pure a = record { at = λ s. done }

  -- A command that only reads.
  pub Follows-read : {A : Type 0} (f : Keyspace → A) → Follows b l u (λ s. (s, f s))
  Follows-read f = record { at = λ s. done }

  pub Follows-bind :
      {A B : Type 0} {m : Action Keyspace A} {f : A → Action Keyspace B}
      → Follows b l u m
      → ((a : A) → Follows b l u (f a))
      → Follows b l u (m >>= f)
  Follows-bind {m} fm ff = record { at = λ s. append (fm.at s) ((ff (m s).1).at (m s).0) }

  pub Follows-if :
      {A : Type 0} (c : Bool) {m n : Action Keyspace A}
      → Follows b l u m
      → Follows b l u n
      → Follows b l u (if c then m else n)
  Follows-if true fm fn = fm
  Follows-if false fm fn = fn

  pub Follows-for_each :
      {A B : Type 0} (xs : List A) {f : A → Action Keyspace B}
      → ((a : A) → Follows b l u (f a))
      → Follows b l u (for_each xs f)
  unfolding for_each
  Follows-for_each [] ff = record { at = λ s. done }
  Follows-for_each (x ∷ xs) {f} ff = record {
    at = λ s. append ((ff x).at s) ((Follows-for_each xs ff).at (f x s).0);
  }

  pub Follows-for_map :
      {A B : Type 0} (xs : List A) {f : A → Action Keyspace B}
      → ((a : A) → Follows b l u (f a))
      → Follows b l u (for_map xs f)
  unfolding for_map
  Follows-for_map [] ff = record { at = λ s. done }
  Follows-for_map (x ∷ xs) {f} ff = record {
    at = λ s. append ((ff x).at s) ((Follows-for_map xs ff).at (f x s).0);
  }

  pub Follows-call : {A : Type 0} {m : Action Keyspace A} → Follows b l u m → Follows b l u (call m)
  Follows-call fm = record { at = λ s. fm.at s }

  pub Follows-lift : {A : Type 0} (x : Result A) → Follows b l u (lift {S = Keyspace} x)
  Follows-lift x = record { at = λ s. done }

  pub Follows-continue :
      {A B : Type 0} (x : Result A) {f : A → Method Keyspace B}
      → ((a : A) → Follows b l u (f a))
      → Follows b l u (continue x f)
  Follows-continue (ok a) ff = ff a
  Follows-continue (raise e) ff = record { at = λ s. done }

  pub Follows-or_else :
      {A : Type 0} (x : Result A) {f : Exception → Method Keyspace A}
      → ((e : Exception) → Follows b l u (f e))
      → Follows b l u (or_else x f)
  Follows-or_else (ok a) ff = record { at = λ s. done }
  Follows-or_else (raise e) ff = ff e

  -- The rules for the methods, which may raise.
  pub Follows-then :
      {A B : Type 0} {m : Method Keyspace A} {f : A → Method Keyspace B}
      → Follows b l u m
      → ((a : A) → Follows b l u (f a))
      → Follows b l u (Method.◌>>=◌ m f)
  Follows-then fm ff = Follows-bind fm λ x. Follows-continue x ff

  pub Follows-try_except :
      {A : Type 0} {m : Method Keyspace A} {f : Exception → Method Keyspace A}
      → Follows b l u m
      → ((e : Exception) → Follows b l u (f e))
      → Follows b l u (Method.try_except m f)
  Follows-try_except fm ff = Follows-bind fm λ x. Follows-or_else x ff

  pub Follows-try_finally :
      {A : Type 0} {m : Method Keyspace A} {f : Action Keyspace (Unit {0})}
      → Follows b l u m
      → Follows b l u f
      → Follows b l u (Method.try_finally m f)
  Follows-try_finally fm ff = Follows-bind fm λ x. Follows-bind ff λ _. Follows-lift x

module _ {b : Bool} {l : ℕ} (u : ℕ) where
  pub enters-Follows : (d p : ℕ) → Follows b l u (Command.zadd_nx (entries_key u) (str_of d) p)
  enters-Follows d p = record { at = λ s. one (enters d p) }

  pub leaves-Follows : (d : ℕ) → Follows b l u (Command.zrem (entries_key u) (str_of d))
  leaves-Follows d = record { at = λ s. one (leaves d) }

  pub empties-Follows : Follows b l u (Command.delete (entries_key u))
  empties-Follows = record { at = λ s. one empties }

  pub configures-Follows : (m : Fields) → Follows b l u (Command.hset (cfg_key u) m)
  configures-Follows m = record { at = λ s. one (configures m) }

  pub chooses-Follows :
      (ids : List ℕ) → Follows b l u (Command.sadd (cfg_sources_key u) (map str_of ids))
  chooses-Follows ids = record { at = λ s. one (chooses ids) }

  pub forgets-Follows : Follows b l u (Command.delete (cfg_sources_key u))
  forgets-Follows = record { at = λ s. one forgets }

  pub counts-Follows : Follows b l u (Command.incr run_counter_key)
  counts-Follows = record { at = λ s. one counts }

  pub logs-Follows : (m : Fields) → Follows b l u (Command.xadd (runs_key u) m)
  logs-Follows m = record { at = λ s. one (logs m) }

  pub tells-Follows : (frame : Text) → Follows b l u (Command.publish (channel_for u) frame)
  tells-Follows frame = record { at = λ s. one (tells frame) }

  pub signs_in-Follows :
      (h blob : Text) (ttl : ℕ) → Follows b l u (Command.set_ex (session_key h) blob ttl)
  signs_in-Follows h blob ttl = record { at = λ s. one (signs_in h blob ttl) }

  pub signs_out-Follows : (h : Text) → Follows b l u (Command.delete (session_key h))
  signs_out-Follows h = record { at = λ s. one (signs_out h) }

module _ {l : ℕ} (u : ℕ) where
  pub locks-Follows : (token : Text) → Follows true l u (Command.set_nx_ex (lock_key u) token l)
  locks-Follows token = record { at = λ s. one (locks refl token) }

  pub unlocks-Follows : Follows true l u (Command.delete (lock_key u))
  unlocks-Follows = record { at = λ s. one (unlocks refl) }
