-- ===== src/Worker/Generator/Wanted.antt =====
-- The generator and the database together: which documents a run puts on the tape.
use s3p_tape_service.Prelude.{
  ℕ, ◌<◌, ◌≡◌, refl, ap, sym, ◌∙◌, Bool, true, false, some, List, [], ◌∷◌, contains,
}
use s3p_tape_service.Prelude.Text.{Text, str_of}
use s3p_tape_service.Errors.{Result, ok, raise}
use s3p_tape_service.Keys.{cfg_key, cfg_sources_key, entries_key}
use s3p_tape_service.Redis.{Redis, has_member}
use s3p_tape_service.Redis.Command.{is_some}
use s3p_tape_service.Stdlib.{Stdlib}
use s3p_tape_service.Settings.{Settings}
use s3p_tape_service.Database.{Database, any_wanted}
use s3p_tape_service.Db.Candidates.{candidates_for_user, order_clause, exclude}
use s3p_tape_service.Store.Lock.Laws.{holder}
use s3p_tape_service.Store.Tape.Config.{TapeConfig, config_of, sorted_ids}
use s3p_tape_service.Store.Tape.View.{rows, has_member-rows}
use s3p_tape_service.Store.Tape.Append.{new_entries, has_doc-new_entries}
use s3p_tape_service.Worker.Generator.{generate_for_user}
use s3p_tape_service.Worker.Generator.Outcome.{regenerate_lem}

pub exclude_nothing : (x : Result (List ℕ)) → exclude [] x ≡ x
unfolding exclude
exclude_nothing (ok rows) = refl
exclude_nothing (raise e) = refl

module _ (pg : Database) (db : pg.Db) (u source : ℕ) (sources ids : List ℕ) (cfg : TapeConfig) where
  abbrev wanted : ℕ → Bool
  wanted =
      any_wanted (pg.tables db).scores u (source ∷ sources) cfg.date_from cfg.date_to
        (pg.tables db).documents

  contains-candidates :
      candidates_for_user pg db u (source ∷ sources) cfg.date_from cfg.date_to cfg.ordering []
        ≡ ok ids
      → (d : ℕ) → contains ids d ≡ wanted d
  unfolding candidates_for_user
  contains-candidates found =
      pg.candidates_wanted db u (source ∷ sources) cfg.date_from cfg.date_to
        (order_clause cfg.ordering) ids (sym (exclude_nothing _) ∙ found)

  module _ (r : Redis) (lib : Stdlib) (st : Settings) (token : Text) (now : ℕ)
      (srv : r.Server) where
    open r use {view}

    -- After a full run for a user whose configuration and whose first source can be read, whose
    -- lock is free and has a positive lifetime, and whose query of the database succeeds, a document
    -- is on the tape exactly if the database has it in one of the user's sources, published within
    -- the configured dates, and not scored by the user.
    pub regenerate_wanted :
        config_of lib u ((view srv).hashes (cfg_key u)) ≡ ok (some cfg)
        → sorted_ids ((view srv).sets (cfg_sources_key u)) ≡ ok (source ∷ sources)
        → is_some (holder (view srv) u) ≡ false
        → 0 < st.worker_advisory_lock_ttl_seconds
        → candidates_for_user pg db u (source ∷ sources) cfg.date_from cfg.date_to cfg.ordering []
          ≡ ok ids
        → (d : ℕ)
        → has_member
            (str_of d)
            ((view (generate_for_user r lib st pg db token now u true srv).0).zsets (entries_key u))
          ≡ wanted d
    regenerate_wanted configured selected free positive found d =
        let outcome =
          regenerate_lem r lib st pg db token now u srv cfg source sources configured selected free
            positive ids found in
        ap (has_member (str_of d)) outcome.1
        ∙ has_member-rows d (new_entries [] 0 0 ids)
        ∙ has_doc-new_entries d [] 0 0 ids
        ∙ contains-candidates found d
