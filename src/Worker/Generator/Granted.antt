-- ===== src/Worker/Generator/Granted.antt =====
-- What every run of the generator that gets its lock shares: the way to the lock, the frames of the
-- run, and the run on any server from the run on the keyspace.
use s3p_tape_service.Prelude.{
  ℕ, ◌+◌, ◌<◌, ◌≡◌, refl, ap, ◌∙◌, Bool, false, Option, none, some, List, [], ◌∷◌, ◌++◌, length,
  if◌then◌else◌, arith, ltb,
}
use s3p_tape_service.Prelude.Text.{Text, codes, text_eq_refl}
use s3p_tape_service.Action.{Implements}
use s3p_tape_service.Errors.{Result, ok}
use s3p_tape_service.Keys.{cfg_key, cfg_sources_key, lock_key}
use s3p_tape_service.Redis.{Redis, Keyspace, Fields, reference, lookup, insert, merge}
use s3p_tape_service.Redis.Command.{is_some}
use s3p_tape_service.Stdlib.{Stdlib}
use s3p_tape_service.Settings.{Settings}
use s3p_tape_service.Database.{Database}
use s3p_tape_service.Store.Events.{
  make_lock_acquired, make_lock_released, make_schedule_started, make_schedule_completed,
  make_tape_regenerated,
}
use s3p_tape_service.Store.Lock.Laws.{holder}
use s3p_tape_service.Store.Tape.Config.{TapeConfig, config_of, sorted_ids, get_config_sources}
use s3p_tape_service.Store.Tape.View.{Tape}
use s3p_tape_service.Worker.Generator.{generate_for_user, guarded, locked_run, kind_of}
use s3p_tape_service.Worker.Generator.Frames.{added_frames}
use s3p_tape_service.Worker.Generator.Implementation.{generate_for_user-Implements}
use s3p_tape_service.Worker.Generator.Runs.{next_run, locked, unlocked, guarded-run}

pub lookup-insert_self : (k v : Text) (m : Fields) → lookup k (insert k v m) ≡ some v
unfolding lookup insert
lookup-insert_self k v [] = rw (text_eq_refl k)
lookup-insert_self k v ((j, w) ∷ m) = ground (arith, text_eq_refl k, lookup-insert_self k v m)

pub lookup-merge_one : (k v : Text) (m : Fields) → lookup k (merge m ((k, v) ∷ [])) ≡ some v
unfolding merge
lookup-merge_one k v m = lookup-insert_self k v m

module _ (r : Redis) (lib : Stdlib) (st : Settings) (pg : Database) (db : pg.Db) (token : Text)
    (now : ℕ) (u : ℕ) where
  open r use {view, Server}

  -- A configured user with sources goes on to the lock.
  pub generate-guarded :
      (dirty : Bool) (s : Keyspace) (cfg : TapeConfig) (source : ℕ) (sources : List ℕ)
      → config_of lib u (s.hashes (cfg_key u)) ≡ ok (some cfg)
      → sorted_ids (s.sets (cfg_sources_key u)) ≡ ok (source ∷ sources)
      → generate_for_user reference lib st pg db token now u dirty s
        ≡ guarded reference lib st pg db token now u dirty cfg (source ∷ sources) s
  unfolding generate_for_user get_config_sources
  generate-guarded dirty s cfg source sources configured selected = rw (configured, selected)

  pub own_lock :
      (s : Keyspace)
      → 0 < st.worker_advisory_lock_ttl_seconds
      → holder (locked lib st pg db token now u s) u ≡ some token
  own_lock s positive = rw (text_eq_refl (lock_key u)) (held (ltb s.clock (s.clock + ttl)) refl)
    where
      ttl : ℕ
      ttl = st.worker_advisory_lock_ttl_seconds

      held :
          (b : Bool)
          → ltb s.clock (s.clock + ttl) ≡ b
          → ◌≡◌ {A = Option Text} (if b then some token else none) (some token)
      held b e = ground arith

  -- The frames of a run that adds `new`, in the order in which they are published.
  abbrev pub run_frames : Keyspace → Bool → ℕ → Tape → List Text
  run_frames s dirty removed new =
      lib.dumps (make_lock_acquired lib now u)
      ∷ lib.dumps
          (make_schedule_started lib now u (next_run lib st pg db token now u s) (kind_of dirty))
      ∷ (added_frames lib st pg db token now u dirty new
          ++ lib.dumps (make_tape_regenerated lib now u (kind_of dirty) (length new) removed)
            ∷ lib.dumps (
                make_schedule_completed lib now u (next_run lib st pg db token now u s)
                  (codes "ok"))
            ∷ lib.dumps (make_lock_released lib now u)
            ∷ [])

  -- The frames of a run whose query of the database fails after `removed` entries were removed.
  abbrev pub error_frames : Keyspace → Bool → ℕ → List Text
  error_frames s dirty removed =
      lib.dumps (make_lock_acquired lib now u)
      ∷ lib.dumps
          (make_schedule_started lib now u (next_run lib st pg db token now u s) (kind_of dirty))
      ∷ lib.dumps (make_tape_regenerated lib now u (kind_of dirty) 0 removed)
      ∷ lib.dumps
          (make_schedule_completed lib now u (next_run lib st pg db token now u s) (codes "error"))
      ∷ lib.dumps (make_lock_released lib now u)
      ∷ []

  module _ (srv : Server) (cfg : TapeConfig) (source : ℕ) (sources : List ℕ)
      (configured : config_of lib u ((view srv).hashes (cfg_key u)) ≡ ok (some cfg))
      (selected : sorted_ids ((view srv).sets (cfg_sources_key u)) ≡ ok (source ∷ sources))
      (free : is_some (holder (view srv) u) ≡ false)
      (positive : 0 < st.worker_advisory_lock_ttl_seconds) where
    -- The run on the server, from the run on the keyspace under the lock.
    pub run_lem :
        (dirty : Bool) (s' : Keyspace) (x : Result (Text × ℕ))
        → locked_run reference lib st pg db token now u dirty cfg
            (source ∷ sources)
            (locked lib st pg db token now u (view srv))
          ≡ (s', x)
        → holder s' u ≡ some token
        → let (srv', result) = generate_for_user r lib st pg db token now u dirty srv in
          (view srv' ≡ unlocked lib st pg db token now u s') × (result ≡ x)
    run_lem dirty s' x ran own = (
      im.state srv ∙ ap (λ (y : Keyspace × Result (Text × ℕ)). y.0) both,
      im.result srv ∙ ap (λ (y : Keyspace × Result (Text × ℕ)). y.1) both,
    )
      where
        im :
            Implements view
              (generate_for_user r lib st pg db token now u dirty)
              (generate_for_user reference lib st pg db token now u dirty)
        im = generate_for_user-Implements r lib st pg db token now u dirty

        both :
            generate_for_user reference lib st pg db token now u dirty (view srv)
            ≡ (unlocked lib st pg db token now u s', x)
        both =
            generate-guarded dirty (view srv) cfg source sources configured selected
            ∙ guarded-run lib st pg db token now u dirty (view srv) s' x cfg (source ∷ sources) free
                ran own
