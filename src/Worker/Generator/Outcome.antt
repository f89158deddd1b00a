-- ===== src/Worker/Generator/Outcome.antt =====
-- What a run of the generator leaves behind, on any server: the tape, the dirty flag, the lock, and
-- the frames that the user's clients receive.
use s3p_tape_service.Prelude.{
  ℕ, ◌<◌, ◌≡◌, ap, ◌∙◌, true, false, none, some, List, [], ◌∷◌, ◌++◌, length, append_assoc,
}
use s3p_tape_service.Prelude.Text.{Text, codes, text_eq_refl, text_eq_ne}
use s3p_tape_service.Errors.{Exception, ok, raise}
use s3p_tape_service.Keys.{
  channel_for, cfg_key, cfg_sources_key, entries_key, lock_key, entries_key-ne-lock_key,
  cfg_key-ne-lock_key, lock_key-ne-entries_key, cfg_key-ne-entries_key,
}
use s3p_tape_service.Redis.{Redis, Keyspace, lookup}
use s3p_tape_service.Redis.Command.{is_some}
use s3p_tape_service.Stdlib.{Stdlib}
use s3p_tape_service.Settings.{Settings}
use s3p_tape_service.Database.{Database}
use s3p_tape_service.Db.Candidates.{candidates_for_user}
use s3p_tape_service.Store.Lock.Laws.{holder}
use s3p_tape_service.Store.Tape.Config.{TapeConfig, config_of, sorted_ids}
use s3p_tape_service.Store.Tape.View.{Tape, IsTape, Holds}
use s3p_tape_service.Store.Tape.Append.{new_entries, new_entries-IsTape_from}
use s3p_tape_service.Store.Tape.Operations.{last_position}
use s3p_tape_service.Worker.Generator.{generate_for_user, after_last}
use s3p_tape_service.Worker.Generator.Runs.{
  filled, failed, next_run, begun, emptied, existing_ids, locked, unlocked, locked_run-full,
  locked_run-failed, locked_run-topped_up, positions_low,
}
use s3p_tape_service.Worker.Generator.Granted.{
  own_lock, run_lem, run_frames, error_frames, lookup-merge_one,
}

module _ (r : Redis) (lib : Stdlib) (st : Settings) (pg : Database) (db : pg.Db) (token : Text)
    (now : ℕ) (u : ℕ) where
  open r use {view, Server}

  module _ (srv : Server) (cfg : TapeConfig) (source : ℕ) (sources : List ℕ)
      (configured : config_of lib u ((view srv).hashes (cfg_key u)) ≡ ok (some cfg))
      (selected : sorted_ids ((view srv).sets (cfg_sources_key u)) ≡ ok (source ∷ sources))
      (free : is_some (holder (view srv) u) ≡ false)
      (positive : 0 < st.worker_advisory_lock_ttl_seconds) where
    -- A full run for a user whose configuration and whose first source can be read, whose lock is
    -- free and has a positive lifetime, and for whom the database finds `ids`: the run returns how
    -- many documents it added; the tape then holds the found documents, each once, in the order
    -- found, at positions from 0; the dirty flag is 0 and the lock is free; and the user's channel
    -- has received exactly the frames of the run, in order.
    pub regenerate_lem :
        (ids : List ℕ)
        → candidates_for_user pg db u (source ∷ sources) cfg.date_from cfg.date_to cfg.ordering []
          ≡ ok ids
        → let (srv', result) = generate_for_user r lib st pg db token now u true srv in
          let new = new_entries [] 0 0 ids in
          (result ≡ ok (codes "full", length new))
          × Holds (view srv') u new
          × IsTape new
          × (lookup (codes "dirty") ((view srv').hashes (cfg_key u)) ≡ some (codes "0"))
          × (holder (view srv') u ≡ none)
          × ((view srv').channels (channel_for u)
              ≡ (view srv).channels (channel_for u)
                ++ run_frames r lib st pg db token now u
                    (view srv)
                    true
                    (length ((view srv).zsets (entries_key u)))
                    new)
    regenerate_lem ids found = (
      run.1,
      ap (λ (k : Keyspace). k.zsets (entries_key u)) run.0
          ∙ rw (text_eq_ne _ _ (entries_key-ne-lock_key u u), text_eq_refl (entries_key u)),
      new_entries-IsTape_from [] 0 0 ids tt tt,
      ap (λ (k : Keyspace). lookup (codes "dirty") (k.hashes (cfg_key u))) run.0
          ∙ rw (text_eq_ne _ _ (cfg_key-ne-lock_key u u), text_eq_refl (cfg_key u))
              (lookup-merge_one (codes "dirty") (codes "0") _),
      ap (λ (k : Keyspace). holder k u) run.0 ∙ rw (text_eq_refl (lock_key u)),
      ap (λ (k : Keyspace). k.channels (channel_for u)) run.0
          ∙ simp (text_eq_refl (channel_for u), append_assoc),
    )
      where
        s : Keyspace
        s = locked lib st pg db token now u (view srv)

        new : Tape
        new = new_entries [] 0 0 ids

        s' : Keyspace
        s' =
            filled lib st pg db token now u true (next_run lib st pg db token now u s)
              (length (s.zsets (entries_key u))) [] new
              (emptied lib st pg db token now u (begun lib st pg db token now u true s))

        own : holder s' u ≡ some token
        own =
            rw (text_eq_ne _ _ (lock_key-ne-entries_key u u))
              (own_lock r lib st pg db token now u (view srv) positive)

        run :
            let (srv', result) = generate_for_user r lib st pg db token now u true srv in
            (view srv' ≡ unlocked lib st pg db token now u s')
            × (result ≡ ok (codes "full", length new))
        run =
            run_lem r lib st pg db token now u srv cfg source sources configured selected free
              positive true s' (ok (codes "full", length new))
              (locked_run-full lib st pg db token now u s cfg (source ∷ sources) ids found) own

    -- A full run under the same conditions except that the query of the database raises `e`: the
    -- run raises `e`; the tape is empty, the configuration as it was with its dirty flag, the lock
    -- free; and the user's channel has received exactly the frames of a failed run, in order.
    pub regenerate_failed :
        (e : Exception)
        → candidates_for_user pg db u (source ∷ sources) cfg.date_from cfg.date_to cfg.ordering []
          ≡ raise e
        → let (srv', result) = generate_for_user r lib st pg db token now u true srv in
          (result ≡ raise e)
          × Holds (view srv') u []
          × ((view srv').hashes (cfg_key u) ≡ (view srv).hashes (cfg_key u))
          × (holder (view srv') u ≡ none)
          × ((view srv').channels (channel_for u)
              ≡ (view srv).channels (channel_for u)
                ++ error_frames r lib st pg db token now u
                    (view srv)
                    true
                    (length ((view srv).zsets (entries_key u))))
    regenerate_failed e broken = (
      run.1,
      ap (λ (k : Keyspace). k.zsets (entries_key u)) run.0
          ∙ rw (text_eq_ne _ _ (entries_key-ne-lock_key u u), text_eq_refl (entries_key u)),
      ap (λ (k : Keyspace). k.hashes (cfg_key u)) run.0
          ∙ rw (
            text_eq_ne _ _ (cfg_key-ne-lock_key u u),
            text_eq_ne _ _ (cfg_key-ne-entries_key u u),
          ),
      ap (λ (k : Keyspace). holder k u) run.0 ∙ rw (text_eq_refl (lock_key u)),
      ap (λ (k : Keyspace). k.channels (channel_for u)) run.0
          ∙ simp (text_eq_refl (channel_for u), append_assoc),
    )
      where
        s : Keyspace
        s = locked lib st pg db token now u (view srv)

        s' : Keyspace
        s' =
            failed lib st pg db token now u true (next_run lib st pg db token now u s)
              (length (s.zsets (entries_key u)))
              (emptied lib st pg db token now u (begun lib st pg db token now u true s))

        own : holder s' u ≡ some token
        own =
            rw (text_eq_ne _ _ (lock_key-ne-entries_key u u))
              (own_lock r lib st pg db token now u (view srv) positive)

        run :
            let (srv', result) = generate_for_user r lib st pg db token now u true srv in
            (view srv' ≡ unlocked lib st pg db token now u s') × (result ≡ raise e)
        run =
            run_lem r lib st pg db token now u srv cfg source sources configured selected free
              positive true s' (raise e)
              (locked_run-failed lib st pg db token now u s cfg (source ∷ sources) e broken) own

    -- A run that is not full, for such a user with the well-formed tape `t`, when the database
    -- finds `ids` beside the documents of the tape's first ten thousand entries: the tape keeps its
    -- entries and gets the found documents that it does not hold, each once, after its last
    -- position; it stays well-formed; the configuration is as it was, the lock free; and the user's
    -- channel has received exactly the frames of the run, in order.
    pub top_up_lem :
        (t : Tape) (ids : List ℕ)
        → Holds (view srv) u t
        → IsTape t
        → candidates_for_user pg db u
            (source ∷ sources)
            cfg.date_from
            cfg.date_to
            cfg.ordering
            (existing_ids lib st pg db token now u t)
          ≡ ok ids
        → let (srv', result) = generate_for_user r lib st pg db token now u false srv in
          let new = new_entries t (after_last (last_position t)) 0 ids in
          (result ≡ ok (codes "incremental", length new))
          × Holds (view srv') u (t ++ new)
          × IsTape (t ++ new)
          × ((view srv').hashes (cfg_key u) ≡ (view srv).hashes (cfg_key u))
          × (holder (view srv') u ≡ none)
          × ((view srv').channels (channel_for u)
              ≡ (view srv).channels (channel_for u)
                ++ run_frames r lib st pg db token now u (view srv) false 0 new)
    top_up_lem t ids h tape found = (
      run.1,
      ap (λ (k : Keyspace). k.zsets (entries_key u)) run.0
          ∙ rw (text_eq_ne _ _ (entries_key-ne-lock_key u u), text_eq_refl (entries_key u)),
      new_entries-IsTape_from t (after_last (last_position t)) 0 ids tape
          (positions_low lib st pg db token now u t tape),
      ap (λ (k : Keyspace). k.hashes (cfg_key u)) run.0
          ∙ rw (text_eq_ne _ _ (cfg_key-ne-lock_key u u)),
      ap (λ (k : Keyspace). holder k u) run.0 ∙ rw (text_eq_refl (lock_key u)),
      ap (λ (k : Keyspace). k.channels (channel_for u)) run.0
          ∙ simp (text_eq_refl (channel_for u), append_assoc),
    )
      where
        s : Keyspace
        s = locked lib st pg db token now u (view srv)

        new : Tape
        new = new_entries t (after_last (last_position t)) 0 ids

        s' : Keyspace
        s' =
            filled lib st pg db token now u false (next_run lib st pg db token now u s) 0 t new
              (begun lib st pg db token now u false s)

        run :
            let (srv', result) = generate_for_user r lib st pg db token now u false srv in
            (view srv' ≡ unlocked lib st pg db token now u s')
            × (result ≡ ok (codes "incremental", length new))
        run =
            run_lem r lib st pg db token now u srv cfg source sources configured selected free
              positive false s' (ok (codes "incremental", length new))
              (locked_run-topped_up lib st pg db token now u s cfg (source ∷ sources) t h ids tape
                found)
              (own_lock r lib st pg db token now u (view srv) positive)
