-- ===== src/Service/Recovery.antt =====
-- What the worker makes of a tape that some request, run or crash left behind: after the lifetime
-- of a lock, a full run is not turned away, and makes the tape what it should be.
use s3p_tape_service.Prelude.{
  ℕ, ◌+◌, ◌<◌, ◌≤◌, ◌≡◌, ap, true, false, some, List, [], ◌∷◌, ◌∙◌, length, arith,
}
use s3p_tape_service.Prelude.Text.{Text, codes, str_of}
use s3p_tape_service.Errors.{ok}
use s3p_tape_service.Keys.{cfg_key, cfg_sources_key, entries_key, lock_key}
use s3p_tape_service.Redis.{Redis, Keyspace, has_member}
use s3p_tape_service.Redis.Command
use s3p_tape_service.Redis.Command.{is_some}
use s3p_tape_service.Stdlib.{Stdlib}
use s3p_tape_service.Settings.{Settings}
use s3p_tape_service.Database.{Database, any_wanted}
use s3p_tape_service.Db.Candidates.{candidates_for_user}
use s3p_tape_service.Store.Lock.Laws.{holder}
use s3p_tape_service.Store.Tape.Config.{TapeConfig, config_of, sorted_ids}
use s3p_tape_service.Store.Tape.Append.{new_entries}
use s3p_tape_service.Worker.Generator.{generate_for_user}
use s3p_tape_service.Worker.Generator.Outcome.{regenerate_lem}
use s3p_tape_service.Worker.Generator.Wanted.{regenerate_wanted}
use s3p_tape_service.Service.Brief.{AllBrief, Step-AllBrief, EndsBy-later, EndsBy-gone}
use s3p_tape_service.Service.Reachable.{Reachable, begins, follows}

Reachable-AllBrief : (l : ℕ) (s : Keyspace) → Reachable l s → AllBrief l s
Reachable-AllBrief l s (begins _ empty free) v = rw (free v) tt
Reachable-AllBrief l s (follows u {s = r} before st) v =
    Step-AllBrief true l u r s st (Reachable-AllBrief l r before) v

-- Nobody's lock is left after its lifetime.
holder-elapse :
    (l : ℕ) (s : Keyspace) (n u : ℕ)
    → Reachable l s
    → l ≤ n
    → is_some (holder (Command.elapse n s).0 u) ≡ false
holder-elapse l s n u h le = EndsBy-gone (s.clock + n) (s.strings (lock_key u)) (
    EndsBy-later (s.clock + l) (s.clock + n) (s.strings (lock_key u)) (omega arith)
      (Reachable-AllBrief l s h u))

module _ (pg : Database) (db : pg.Db) (u source : ℕ) (sources ids : List ℕ) (cfg : TapeConfig)
    (r : Redis) (lib : Stdlib) (st : Settings) (token : Text) (now : ℕ) (srv : r.Server) where
  open r use {view, elapse, elapse_law}

  -- Let the server be in any state that the commands of requests, runs and notifications can lead
  -- to, however they interleave and wherever any of them stopped half-way, and let at least the
  -- lifetime of a lock, which is positive, go by. Then a full run for a user whose configuration and
  -- whose first source can be read, and whose query of the database succeeds, returns the number of
  -- documents, and a document is on the tape exactly if the database has it in one of the user's
  -- sources, published within the configured dates, and not scored by the user.
  pub regenerate-Reachable :
      (n : ℕ)
      → Reachable st.worker_advisory_lock_ttl_seconds (view srv)
      → st.worker_advisory_lock_ttl_seconds ≤ n
      → 0 < st.worker_advisory_lock_ttl_seconds
      → config_of lib u ((view srv).hashes (cfg_key u)) ≡ ok (some cfg)
      → sorted_ids ((view srv).sets (cfg_sources_key u)) ≡ ok (source ∷ sources)
      → candidates_for_user pg db u (source ∷ sources) cfg.date_from cfg.date_to cfg.ordering []
        ≡ ok ids
      → let (srv', result) = generate_for_user r lib st pg db token now u true (elapse n srv).0 in
        (result ≡ ok (codes "full", length (new_entries [] 0 0 ids)))
        × ((d : ℕ)
            → has_member (str_of d) ((view srv').zsets (entries_key u))
              ≡ any_wanted
                  (pg.tables db).scores
                  u
                  (source ∷ sources)
                  cfg.date_from
                  cfg.date_to
                  (pg.tables db).documents
                  d)
  regenerate-Reachable n reached late positive configured selected found =
      let same : view (elapse n srv).0 ≡ (Command.elapse n (view srv)).0 =
        (elapse_law n).state srv in
      let configured' =
        ap (λ (s : Keyspace). config_of lib u (s.hashes (cfg_key u))) same ∙ configured in
      let selected' =
        ap (λ (s : Keyspace). sorted_ids (s.sets (cfg_sources_key u))) same ∙ selected in
      let free =
        ap (λ s. is_some (holder s u)) same
        ∙ holder-elapse st.worker_advisory_lock_ttl_seconds (view srv) n u reached late in
      (
        (regenerate_lem r lib st pg db token now u (elapse n srv).0 cfg source sources configured'
            selected' free positive ids found).0,
        regenerate_wanted pg db u source sources ids cfg r lib st token now (elapse n srv).0
            configured' selected' free positive found,
      )
