-- ===== src/Worker/Scheduler.antt =====
-- src/tape_service/worker/scheduler.py: the jobs of the worker, and what each does when the scheduler
-- calls it.
use s3p_tape_service.Prelude.{ℕ, Bool, true, Option, none, some, List, [], ◌∷◌}
use s3p_tape_service.Prelude.Text.{Text, codes}
use s3p_tape_service.Action.{Action, pure}
use s3p_tape_service.Redis.{Redis}
use s3p_tape_service.Settings.{Settings}
use s3p_tape_service.Stdlib.{Stdlib}
use s3p_tape_service.Database.{Database}
use s3p_tape_service.Worker.Tick.{Moment, tick}

-- The functions that are handed to the scheduler.
pub data JobFunction : Type 0 where
  heartbeat generator_job : JobFunction

-- The arguments of `add_job`, `none` for one that is left out.
pub record Job : Type 0 where
  pub function : JobFunction
  pub trigger : Text
  pub seconds : ℕ
  pub id : Text
  pub max_instances : Option ℕ
  pub coalesce : Option Bool

-- The jobs of the scheduler that is returned, in the order in which they were added.
unfoldable pub build_scheduler : Settings → List Job
build_scheduler s =
    record {
      function = heartbeat;
      trigger = codes "interval";
      seconds = s.worker_interval_seconds;
      id = codes "heartbeat";
      max_instances = none;
      coalesce = none;
    }
    ∷ record {
      function = generator_job;
      trigger = codes "interval";
      seconds = s.worker_interval_seconds;
      id = codes "generator";
      max_instances = some 1;
      coalesce = some true;
    }
    ∷ []

-- `heartbeat` writes a line of the log; `found` is what SCAN finds.
unfoldable pub call_job :
    (r : Redis) (lib : Stdlib) (st : Settings) (pg : Database)
    → (ℕ → Moment pg)
    → List Text
    → JobFunction
    → Action r.Server Unit
unfolding tick
call_job r lib st pg moment found heartbeat = pure tt
call_job r lib st pg moment found generator_job = tick r lib st pg moment found
