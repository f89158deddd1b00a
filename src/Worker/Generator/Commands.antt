-- ===== src/Worker/Generator/Commands.antt =====
-- A run of the generator writes by the service's commands for its own user only.
use s3p_tape_service.Prelude.{ℕ, Bool, true, false, Option, none, some, List, [], ◌∷◌, map, length}
use s3p_tape_service.Prelude.Text.{Text, codes}
use s3p_tape_service.Action.{Action}
use s3p_tape_service.Errors.{Exception, Result, ok, raise}
use s3p_tape_service.Db.Candidates.{candidates_for_user}
use s3p_tape_service.Store.Events.{
  make_lock_acquired, make_lock_released, make_schedule_started, make_schedule_completed,
  make_tape_entry_added, make_tape_regenerated,
}
use s3p_tape_service.Redis.{Keyspace, reference}
use s3p_tape_service.Stdlib.{Stdlib, Json}
use s3p_tape_service.Settings.{Settings}
use s3p_tape_service.Database.{Database}
use s3p_tape_service.Store.Lock.{hold}
use s3p_tape_service.Store.Tape.Config.{TapeConfig}
use s3p_tape_service.Worker.Generator.{
  emit, when_dirty, prepare, announce, fill, on_error, after_prepare, locked_run, announce_released,
  guarded, with_sources, with_config, generate_for_user, after_last, skipped, kind_of,
}
use s3p_tape_service.Service.Follows.{
  Follows, Follows-pure, Follows-bind, Follows-if, Follows-for_each, Follows-call, Follows-lift,
  Follows-then, Follows-try_except, Follows-try_finally,
}
use s3p_tape_service.Service.Stores.{
  publish-Follows, get_config-Follows, create_run-Follows, finish_run-Follows, acquire-Follows,
  release_if-Follows, clear_dirty-Follows, get_config_sources-Follows, list_entries_page-Follows,
  max_position-Follows, append_entries-Follows, delete_all_entries-Follows,
}

module _ {b : Bool} {l : ℕ} (lib : Stdlib) (st : Settings) (pg : Database) (db : pg.Db)
    (token : Text) (now u : ℕ) (dirty : Bool) where
  emit-Follows :
      (event : Json) → Follows b l u (emit reference lib st pg db token now u dirty event)
  unfolding emit
  emit-Follows event = Follows-call (publish-Follows u lib event)

  pub when_dirty-Follows :
      {m : Action Keyspace Unit}
      → Follows b l u m
      → Follows b l u (when_dirty reference lib st pg db token now u dirty m)
  unfolding when_dirty
  when_dirty-Follows fm = Follows-if dirty (Follows-call fm) (Follows-lift (ok tt))

  prepare-Follows : Follows b l u (prepare reference lib st pg db token now u dirty)
  unfolding prepare
  prepare-Follows =
      Follows-if dirty
        (Follows-then (Follows-call (delete_all_entries-Follows u))
          λ removed. Follows-lift (ok (removed, 0, [])))
        (Follows-then (Follows-call (max_position-Follows u)) λ last.
          Follows-then (list_entries_page-Follows u none 10000)
            λ page. Follows-lift (ok (0, after_last last, map (λ e. e.1) page)))

  announce-Follows :
      (e : ℕ × ℕ) → Follows b l u (announce reference lib st pg db token now u dirty e)
  unfolding announce
  announce-Follows (position, d) =
      publish-Follows u lib (make_tape_entry_added lib now u position d)

  fill-Follows :
      (cfg : TapeConfig) (sources : List ℕ) (run_id : ℕ) (p : ℕ × ℕ × List ℕ)
      → Follows b l u (fill reference lib st pg db token now u dirty cfg sources run_id p)
  unfolding fill
  fill-Follows cfg sources run_id (removed, start, existing) =
      Follows-then
        (Follows-lift
          (candidates_for_user pg db u sources cfg.date_from cfg.date_to cfg.ordering existing))
        λ ids. Follows-then (Follows-call (append_entries-Follows u ids run_id start)) λ new.
          Follows-then (Follows-call (Follows-for_each new announce-Follows)) λ _.
            Follows-then (when_dirty-Follows (clear_dirty-Follows u)) λ _.
              Follows-then
                (Follows-call
                  (finish_run-Follows u lib now run_id (codes "ok") (length new) removed))
                λ _.
                  Follows-then
                    (emit-Follows
                      (make_tape_regenerated lib now u (kind_of dirty) (length new) removed))
                    λ _.
                      Follows-then
                        (emit-Follows (make_schedule_completed lib now u run_id (codes "ok")))
                        λ _. Follows-lift (ok (kind_of dirty, length new))

  on_error-Follows :
      (run_id removed : ℕ) (e : Exception)
      → Follows b l u (on_error reference lib st pg db token now u dirty run_id removed e)
  unfolding on_error
  on_error-Follows run_id removed e =
      Follows-then (Follows-call (finish_run-Follows u lib now run_id (codes "error") 0 removed))
        λ _.
          Follows-then (emit-Follows (make_tape_regenerated lib now u (kind_of dirty) 0 removed))
            λ _.
              Follows-then (emit-Follows (make_schedule_completed lib now u run_id (codes "error")))
                λ _. Follows-lift (raise e)

  after_prepare-Follows :
      (cfg : TapeConfig) (sources : List ℕ) (run_id : ℕ) (p : Result (ℕ × ℕ × List ℕ))
      → Follows b l u (after_prepare reference lib st pg db token now u dirty cfg sources run_id p)
  unfolding after_prepare
  after_prepare-Follows cfg sources run_id (raise e) = on_error-Follows run_id 0 e
  after_prepare-Follows cfg sources run_id (ok p) =
      Follows-try_except (fill-Follows cfg sources run_id p) (on_error-Follows run_id p.0)

  pub locked_run-Follows :
      (cfg : TapeConfig) (sources : List ℕ)
      → Follows b l u (locked_run reference lib st pg db token now u dirty cfg sources)
  unfolding locked_run
  locked_run-Follows cfg sources = Follows-then (emit-Follows (make_lock_acquired lib now u)) λ _.
      Follows-then (Follows-call (create_run-Follows u lib now (kind_of dirty))) λ run_id.
        Follows-then (emit-Follows (make_schedule_started lib now u run_id (kind_of dirty)))
          λ _. Follows-bind prepare-Follows (after_prepare-Follows cfg sources run_id)

  pub announce_released-Follows :
      (got : Bool) → Follows b l u (announce_released reference lib st pg db token now u dirty got)
  unfolding announce_released
  announce_released-Follows true =
      Follows-bind (publish-Follows u lib (make_lock_released lib now u)) λ _. Follows-pure tt
  announce_released-Follows false = Follows-pure tt

module _ (lib : Stdlib) (st : Settings) (pg : Database) (db : pg.Db) (token : Text) (now u : ℕ)
    (dirty : Bool) where
  guarded-Follows :
      (cfg : TapeConfig) (sources : List ℕ)
      → Follows true st.worker_advisory_lock_ttl_seconds u
          (guarded reference lib st pg db token now u dirty cfg sources)
  unfolding guarded hold
  guarded-Follows cfg sources = Follows-then (Follows-call (acquire-Follows u st token)) λ got.
      Follows-try_finally
        (Follows-try_finally
          (Follows-if got (locked_run-Follows lib st pg db token now u dirty cfg sources)
            (Follows-lift (ok skipped)))
          (release_if-Follows u got token))
        (announce_released-Follows lib st pg db token now u dirty got)

  with_sources-Follows :
      (cfg : TapeConfig) (sources : List ℕ)
      → Follows true st.worker_advisory_lock_ttl_seconds u
          (with_sources reference lib st pg db token now u dirty cfg sources)
  unfolding with_sources
  with_sources-Follows cfg [] =
      Follows-then
        (when_dirty-Follows lib st pg db token now u dirty
          (Follows-bind (delete_all_entries-Follows u) λ _. clear_dirty-Follows u))
        λ _. Follows-lift (ok skipped)
  with_sources-Follows cfg (s ∷ sources) = guarded-Follows cfg (s ∷ sources)

  with_config-Follows :
      (cfg : Option TapeConfig)
      → Follows true st.worker_advisory_lock_ttl_seconds u
          (with_config reference lib st pg db token now u dirty cfg)
  unfolding with_config
  with_config-Follows none = Follows-lift (ok skipped)
  with_config-Follows (some cfg) =
      Follows-then (get_config_sources-Follows u) (with_sources-Follows cfg)

  pub generate_for_user-Follows :
      Follows true st.worker_advisory_lock_ttl_seconds u
        (generate_for_user reference lib st pg db token now u dirty)
  unfolding generate_for_user
  generate_for_user-Follows = Follows-then (get_config-Follows u lib) with_config-Follows
