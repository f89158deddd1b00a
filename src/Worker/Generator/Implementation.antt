-- ===== src/Worker/Generator/Implementation.antt =====
-- On every server the generator does what it does on the keyspace alone.
use s3p_tape_service.Prelude.{ℕ, Bool, true, false, Option, none, some, List, [], ◌∷◌, map, length}
use s3p_tape_service.Prelude.Text.{Text, codes, str_of}
use s3p_tape_service.Action.{
  Action, Implements, Implements-pure, Implements-if, Implements-for_each, for_each,
}
use s3p_tape_service.Action
use s3p_tape_service.Method
use s3p_tape_service.Method.{Method, Implements-call, Implements-lift, Implements-bind}
use s3p_tape_service.Errors.{Exception, Result, ok, raise}
use s3p_tape_service.Keys.{runs_key}
use s3p_tape_service.Redis.{Redis, reference}
use s3p_tape_service.Stdlib.{Stdlib, Json}
use s3p_tape_service.Settings.{Settings}
use s3p_tape_service.Database.{Database}
use s3p_tape_service.Db.Candidates.{candidates_for_user}
use s3p_tape_service.Store.Events.{
  publish, make_tape_regenerated, make_schedule_started, make_schedule_completed,
}
use s3p_tape_service.Store.Lock.{hold, release_if}
use s3p_tape_service.Store.Lock.Laws.{acquire-Implements, release-Implements}
use s3p_tape_service.Store.Tape.Config.{TapeConfig, clear_dirty}
use s3p_tape_service.Store.Tape.Config.Laws.{get_config-Implements, get_config_sources-Implements}
use s3p_tape_service.Store.Tape.Append.{append_entries-Implements}
use s3p_tape_service.Store.Tape.Operations.{
  list_entries_page-Implements, max_position-Implements, delete_all_entries-Implements,
}
use s3p_tape_service.Store.Tape.Runs.{create_run, finish_run}
use s3p_tape_service.Worker.Generator.{
  emit, when_dirty, prepare, announce, fill, on_error, after_prepare, locked_run, announce_released,
  guarded, with_sources, with_config, generate_for_user, after_last, skipped, kind_of,
}

module _ (r : Redis) (lib : Stdlib) (st : Settings) (pg : Database) (db : pg.Db) (token : Text)
    (now : ℕ) (u : ℕ) (dirty : Bool) where
  open r use {view, Server}

  emit-Implements :
      (j : Json)
      → Implements view
          (emit r lib st pg db token now u dirty j)
          (emit reference lib st pg db token now u dirty j)
  unfolding emit
  emit-Implements j = Implements-call view (r.publish_law _ _)

  publish-Implements : (j : Json) → Implements view (publish r lib u j) (publish reference lib u j)
  unfolding publish
  publish-Implements j = r.publish_law _ _

  clear_dirty-Implements : Implements view (clear_dirty r u) (clear_dirty reference u)
  unfolding clear_dirty
  clear_dirty-Implements = r.hset_law _ _

  create_run-Implements :
      (kind : Text)
      → Implements view (create_run r lib now u kind) (create_run reference lib now u kind)
  unfolding create_run
  create_run-Implements kind = Action.Implements-bind view (r.incr_law _) λ i.
      Action.Implements-bind view
        (r.xadd_law (runs_key u) (
          (codes "id", str_of i)
          ∷ (codes "kind", kind)
          ∷ (codes "status", codes "running")
          ∷ (codes "started_at", lib.isoformat now)
          ∷ []))
        λ _. Implements-pure view i

  finish_run-Implements :
      (i : ℕ) (status : Text) (a b : ℕ)
      → Implements view
          (finish_run r lib now u i status a b)
          (finish_run reference lib now u i status a b)
  unfolding finish_run
  finish_run-Implements i status a b = r.xadd_law _ _

  when_dirty-Implements :
      {m : Action Server Unit} {n : Action reference.Server Unit}
      → Implements view m n
      → Implements view
          (when_dirty r lib st pg db token now u dirty m)
          (when_dirty reference lib st pg db token now u dirty n)
  unfolding when_dirty
  when_dirty-Implements im =
      Implements-if view dirty (Implements-call view im) (Implements-pure view (ok tt))

  prepare-Implements :
      Implements view
        (prepare r lib st pg db token now u dirty)
        (prepare reference lib st pg db token now u dirty)
  unfolding prepare
  prepare-Implements =
      Implements-if view dirty
        (Implements-bind view (Implements-call view (delete_all_entries-Implements r u))
          λ removed. Implements-pure view (ok (removed, 0, [])))
        (Implements-bind view (Implements-call view (max_position-Implements r u)) λ last.
          Implements-bind view (list_entries_page-Implements r u none 10000)
            λ page. Implements-pure view (ok (0, after_last last, map (λ e. e.1) page)))

  announce-Implements :
      (e : ℕ × ℕ)
      → Implements view
          (announce r lib st pg db token now u dirty e)
          (announce reference lib st pg db token now u dirty e)
  unfolding announce
  announce-Implements (p, d) = publish-Implements _

  fill-Implements :
      (cfg : TapeConfig) (sources : List ℕ) (i : ℕ) (p : ℕ × ℕ × List ℕ)
      → Implements view
          (fill r lib st pg db token now u dirty cfg sources i p)
          (fill reference lib st pg db token now u dirty cfg sources i p)
  unfolding fill
  fill-Implements cfg sources i (removed, start, existing) =
      Implements-bind view
        (Implements-lift view
          (candidates_for_user pg db u sources cfg.date_from cfg.date_to cfg.ordering existing))
        λ ids.
          Implements-bind view (Implements-call view (append_entries-Implements r u ids i start))
            λ new.
              Implements-bind view
                (Implements-call view (Implements-for_each view new announce-Implements))
                λ _. Implements-bind view (when_dirty-Implements clear_dirty-Implements) λ _.
                  Implements-bind view
                    (Implements-call view
                      (finish_run-Implements i (codes "ok") (length new) removed))
                    λ _.
                      Implements-bind view
                        (emit-Implements
                          (make_tape_regenerated lib now u (kind_of dirty) (length new) removed))
                        λ _.
                          Implements-bind view
                            (emit-Implements (make_schedule_completed lib now u i (codes "ok")))
                            λ _. Implements-pure view (ok (kind_of dirty, length new))

  on_error-Implements :
      (i removed : ℕ) (e : Exception)
      → Implements view
          (on_error r lib st pg db token now u dirty i removed e)
          (on_error reference lib st pg db token now u dirty i removed e)
  unfolding on_error
  on_error-Implements i removed e =
      Implements-bind view
        (Implements-call view (finish_run-Implements i (codes "error") 0 removed))
        λ _.
          Implements-bind view
            (emit-Implements (make_tape_regenerated lib now u (kind_of dirty) 0 removed))
            λ _.
              Implements-bind view
                (emit-Implements (make_schedule_completed lib now u i (codes "error")))
                λ _. Implements-pure view (raise e)

  after_prepare-Implements :
      (cfg : TapeConfig) (sources : List ℕ) (i : ℕ) (x : Result (ℕ × ℕ × List ℕ))
      → Implements view
          (after_prepare r lib st pg db token now u dirty cfg sources i x)
          (after_prepare reference lib st pg db token now u dirty cfg sources i x)
  unfolding after_prepare
  after_prepare-Implements cfg sources i (raise e) = on_error-Implements i 0 e
  after_prepare-Implements cfg sources i (ok p) =
      Method.Implements-try_except view (fill-Implements cfg sources i p)
        (on_error-Implements i p.0)

  locked_run-Implements :
      (cfg : TapeConfig) (sources : List ℕ)
      → Implements view
          (locked_run r lib st pg db token now u dirty cfg sources)
          (locked_run reference lib st pg db token now u dirty cfg sources)
  unfolding locked_run
  locked_run-Implements cfg sources = Implements-bind view (emit-Implements _) λ _.
      Implements-bind view (Implements-call view (create_run-Implements (kind_of dirty))) λ i.
        Implements-bind view (emit-Implements (make_schedule_started lib now u i (kind_of dirty)))
          λ _.
            Action.Implements-bind view prepare-Implements (after_prepare-Implements cfg sources i)

  release_if-Implements :
      (b : Bool) → Implements view (release_if r b u token) (release_if reference b u token)
  unfolding release_if
  release_if-Implements true = release-Implements r u token
  release_if-Implements false = Implements-pure view tt

  announce_released-Implements :
      (b : Bool)
      → Implements view
          (announce_released r lib st pg db token now u dirty b)
          (announce_released reference lib st pg db token now u dirty b)
  unfolding announce_released
  announce_released-Implements true =
      Action.Implements-bind view (publish-Implements _) λ _. Implements-pure view tt
  announce_released-Implements false = Implements-pure view tt

  guarded-Implements :
      (cfg : TapeConfig) (sources : List ℕ)
      → Implements view
          (guarded r lib st pg db token now u dirty cfg sources)
          (guarded reference lib st pg db token now u dirty cfg sources)
  unfolding guarded hold
  guarded-Implements cfg sources =
      Implements-bind view (Implements-call view (acquire-Implements r st token u)) λ got.
        Method.Implements-try_finally view
          (Method.Implements-try_finally view
            (Implements-if view got (locked_run-Implements cfg sources)
              (Implements-pure view (ok skipped)))
            (release_if-Implements got))
          (announce_released-Implements got)

  with_sources-Implements :
      (cfg : TapeConfig) (sources : List ℕ)
      → Implements view
          (with_sources r lib st pg db token now u dirty cfg sources)
          (with_sources reference lib st pg db token now u dirty cfg sources)
  unfolding with_sources
  with_sources-Implements cfg [] =
      Implements-bind view
        (when_dirty-Implements (
          Action.Implements-bind view (delete_all_entries-Implements r u)
            λ _. clear_dirty-Implements))
        λ _. Implements-pure view (ok skipped)
  with_sources-Implements cfg (s ∷ sources) = guarded-Implements cfg (s ∷ sources)

  with_config-Implements :
      (cfg : Option TapeConfig)
      → Implements view
          (with_config r lib st pg db token now u dirty cfg)
          (with_config reference lib st pg db token now u dirty cfg)
  unfolding with_config
  with_config-Implements none = Implements-pure view (ok skipped)
  with_config-Implements (some cfg) =
      Implements-bind view (get_config_sources-Implements r u) (with_sources-Implements cfg)

  pub generate_for_user-Implements :
      Implements view
        (generate_for_user r lib st pg db token now u dirty)
        (generate_for_user reference lib st pg db token now u dirty)
  unfolding generate_for_user
  generate_for_user-Implements =
      Implements-bind view (get_config-Implements r u lib) with_config-Implements
