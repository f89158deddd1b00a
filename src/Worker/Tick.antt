-- ===== src/Worker/Tick.antt =====
-- `tick` of src/tape_service/worker/generator.py: one run of the generator for each user with a
-- configuration. What a run draws from the database, from `secrets` and from the clock is an
-- argument, since all of these change between the runs.
pub mod Fair
pub mod Configured
use s3p_tape_service.Prelude.{ℕ, Bool, List}
use s3p_tape_service.Prelude.Text.{Text}
use s3p_tape_service.Action.{Action, ◌>>=◌, for_each}
use s3p_tape_service.Redis.{Redis}
use s3p_tape_service.Stdlib.{Stdlib}
use s3p_tape_service.Settings.{Settings}
use s3p_tape_service.Database.{Database}
use s3p_tape_service.Store.Tape.Users.{list_users_with_config}
use s3p_tape_service.Worker.Generator.{generate_for_user}

pub record Moment (pg : Database) : Type 0 where
  pub db : pg.Db
  pub token : Text
  pub now : ℕ

module _ (r : Redis) (lib : Stdlib) (st : Settings) (pg : Database) (moment : ℕ → Moment pg) where
  -- The body of the loop: an exception of the run is logged and dropped.
  unfoldable pub run_user : ℕ × Bool → Action r.Server Unit
  run_user (user_id, dirty) srv =
      let at = moment user_id in
      ((generate_for_user r lib st pg at.db at.token at.now user_id dirty srv).0, tt)

  -- `found` is what SCAN finds.
  unfoldable pub tick : List Text → Action r.Server Unit
  unfolding list_users_with_config run_user for_each
  tick found = do users ← list_users_with_config r found; for_each users run_user
