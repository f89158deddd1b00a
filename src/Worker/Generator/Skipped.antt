-- ===== src/Worker/Generator/Skipped.antt =====
-- The runs of the generator that do nothing.
use s3p_tape_service.Prelude.{ℕ, ◌≡◌, ap, ◌∙◌, Bool, true, some, List, ◌∷◌}
use s3p_tape_service.Prelude.Text.{Text}
use s3p_tape_service.Action.{Implements}
use s3p_tape_service.Errors.{Result, ok}
use s3p_tape_service.Keys.{cfg_key, cfg_sources_key}
use s3p_tape_service.Redis.{Redis, Keyspace, reference}
use s3p_tape_service.Redis.Command.{is_some}
use s3p_tape_service.Stdlib.{Stdlib}
use s3p_tape_service.Settings.{Settings}
use s3p_tape_service.Database.{Database}
use s3p_tape_service.Store.Lock.Laws.{holder}
use s3p_tape_service.Store.Tape.Config.{TapeConfig, config_of, sorted_ids}
use s3p_tape_service.Worker.Generator.{generate_for_user, guarded, skipped}
use s3p_tape_service.Worker.Generator.Implementation.{generate_for_user-Implements}
use s3p_tape_service.Worker.Generator.Granted.{generate-guarded}

module _ (r : Redis) (lib : Stdlib) (st : Settings) (pg : Database) (db : pg.Db) (token : Text)
    (now : ℕ) (u : ℕ) (dirty : Bool) where
  open r use {view, Server}

  guarded-taken :
      (s : Keyspace) (cfg : TapeConfig) (sources : List ℕ)
      → is_some (holder s u) ≡ true
      → guarded reference lib st pg db token now u dirty cfg sources s ≡ (s, ok skipped)
  unfolding guarded
  guarded-taken s cfg sources taken = rw taken

  -- While anyone holds the user's lock, a run of another worker for a user whose configuration and
  -- whose first source can be read is skipped: it changes nothing on the server, publishes no frame,
  -- and does not release the lock that it does not hold.
  pub generate_taken :
      (srv : Server) (cfg : TapeConfig) (source : ℕ) (sources : List ℕ)
      → config_of lib u ((view srv).hashes (cfg_key u)) ≡ ok (some cfg)
      → sorted_ids ((view srv).sets (cfg_sources_key u)) ≡ ok (source ∷ sources)
      → is_some (holder (view srv) u) ≡ true
      → let (srv', result) = generate_for_user r lib st pg db token now u dirty srv in
        (view srv' ≡ view srv) × (result ≡ ok skipped)
  generate_taken srv cfg source sources configured selected taken = (
    im.state srv ∙ ap (λ (y : Keyspace × Result (Text × ℕ)). y.0) both,
    im.result srv ∙ ap (λ (y : Keyspace × Result (Text × ℕ)). y.1) both,
  )
    where
      im :
          Implements view
            (generate_for_user r lib st pg db token now u dirty)
            (generate_for_user reference lib st pg db token now u dirty)
      im = generate_for_user-Implements r lib st pg db token now u dirty

      both :
          generate_for_user reference lib st pg db token now u dirty (view srv)
          ≡ (view srv, ok skipped)
      both =
          generate-guarded r lib st pg db token now u dirty (view srv) cfg source sources configured
            selected
          ∙ guarded-taken (view srv) cfg (source ∷ sources) taken
