-- ===== src/Api/Score/Laws.antt =====
-- What scoring a document does to the database, the tape and the user's clients.
use s3p_tape_service.Prelude.{
  ℕ, ◌<◌, ◌≡◌, refl, ◌∙◌, true, false, ◌&&◌, ◌||◌, Option, some, List, [], ◌∷◌, ◌++◌, ◌==◌, arith,
}
use s3p_tape_service.Prelude.Text.{Text, str_of, text_eq_refl}
use s3p_tape_service.Errors.{Result, ok, raise, unique_violation}
use s3p_tape_service.Keys.{channel_for, cfg_key, cfg_sources_key, entries_key}
use s3p_tape_service.Redis.{Redis, has_member}
use s3p_tape_service.Redis.Command
use s3p_tape_service.Redis.Command.{is_some}
use s3p_tape_service.Settings.{Settings}
use s3p_tape_service.Stdlib.{Stdlib, Json}
use s3p_tape_service.Database.{Database, DocumentRow, is_scored, any_wanted}
use s3p_tape_service.Db.Candidates.{candidates_for_user}
use s3p_tape_service.Store.Events.{make_tape_entry_removed}
use s3p_tape_service.Store.Lock.Laws.{holder}
use s3p_tape_service.Store.Tape.Config.{TapeConfig, config_of, sorted_ids}
use s3p_tape_service.Store.Tape.View.{Tape, rows, remove_doc, IsTape, Holds, put_zset}
use s3p_tape_service.Store.Tape.Operations.{remove_doc-IsTape}
use s3p_tape_service.Store.Tape.Laws.{remove_entry_lem}
use s3p_tape_service.Worker.Generator.{generate_for_user}
use s3p_tape_service.Worker.Generator.Wanted.{regenerate_wanted}
use s3p_tape_service.Api.Score.{
  ScoreRequest, score_of, score_payload, scored_already, clean_tape, submit_score,
}

module _ (r : Redis) (lib : Stdlib) (pg : Database) (now u : ℕ) where
  open r use {view, Server, publish_law}

  clean_tape-view :
      (srv : Server) (d : ℕ) (t : Tape)
      → Holds (view srv) u t
      → IsTape t
      → view (clean_tape r lib pg now u d srv).0
        ≡ (Command.publish
            (channel_for u)
            (lib.dumps (make_tape_entry_removed lib now u d))
            (put_zset (view srv) u (rows (remove_doc d t)))).0
  unfolding clean_tape
  clean_tape-view srv d t h tape =
      let (state, result, kept) = remove_entry_lem r srv u t h d tape in
      (publish_law (channel_for u) _).state _ ∙ rw state

  module _ (req : ScoreRequest) (score : Json) (db : pg.Db) (srv : Server) where
    abbrev saved : pg.Db × Result ℕ
    saved =
        pg.save_score db u req.document_id req.role_id (lib.dumps (score_payload score req.comment))
          req.comment

    pub submit_score-saved :
        (db' : pg.Db) (n : ℕ)
        → score_of req.verdict ≡ some score
        → saved ≡ (db', ok n)
        → submit_score r lib pg now u req (db, srv)
          ≡ ((db', (clean_tape r lib pg now u req.document_id srv).0), ok n)
    unfolding submit_score
    submit_score-saved db' n has stored = rw (has, stored)

    pub submit_score-refused :
        (db' : pg.Db)
        → score_of req.verdict ≡ some score
        → saved ≡ (db', raise unique_violation)
        → submit_score r lib pg now u req (db, srv) ≡ ((db', srv), raise scored_already)
    unfolding submit_score
    submit_score-refused db' has again = rw (has, again)

    -- When the database records the score, for a verdict that has one, and the user's tape is `t`:
    -- the request answers with the score's id; the database then holds the score beside all earlier
    -- ones; the tape loses the document and stays well-formed; and the user's channel receives
    -- exactly one frame, that the document left the tape.
    pub submit_score_lem :
        (t : Tape) (db' : pg.Db) (n : ℕ)
        → score_of req.verdict ≡ some score
        → saved ≡ (db', ok n)
        → Holds (view srv) u t
        → IsTape t
        → let ((db_after, srv'), result) = submit_score r lib pg now u req (db, srv) in
          (result ≡ ok n)
          × ((v i : ℕ)
              → is_scored (pg.tables db_after).scores v i
                ≡ ((v == u) && (i == req.document_id) || is_scored (pg.tables db).scores v i))
          × Holds (view srv') u (remove_doc req.document_id t)
          × IsTape (remove_doc req.document_id t)
          × ((view srv').channels (channel_for u)
              ≡ (view srv).channels (channel_for u)
                ++ lib.dumps (make_tape_entry_removed lib now u req.document_id) ∷ [])
    submit_score_lem t db' n has stored h tape =
        rw (submit_score-saved db' n has stored, clean_tape-view srv req.document_id t h tape)
          (
            refl,
            (pg.saved_scores db u req.document_id req.role_id n _ req.comment db' stored).1,
            rw (text_eq_refl (entries_key u)),
            remove_doc-IsTape req.document_id t tape,
            rw (text_eq_refl (channel_for u)),
          )

any_wanted-scored :
    (scores : List (ℕ × ℕ)) (u : ℕ) (sources : List ℕ) (from to : Option ℕ)
    (documents : List DocumentRow) (i : ℕ)
    → is_scored scores u i ≡ true
    → any_wanted scores u sources from to documents i ≡ false
any_wanted-scored scores u sources from to [] i h = refl
any_wanted-scored scores u sources from to (d ∷ ds) i h =
    ground (arith, any_wanted-scored scores u sources from to ds i)

-- A scored document does not come back: once a request has recorded a score, a full run of the
-- generator on the database that it left leaves the document off the user's tape, whatever happened
-- on the Redis server in between; for a user whose configuration and whose first source can be
-- read, whose lock is free and has a positive lifetime, and whose query of the database succeeds.
pub regenerate-submit_score :
    (r : Redis) (lib : Stdlib) (pg : Database) (now u : ℕ) (req : ScoreRequest) (score : Json)
    (db db' : pg.Db) (srv later : r.Server) (n : ℕ) (st : Settings) (token : Text) (source : ℕ)
    (sources ids : List ℕ) (cfg : TapeConfig)
    → score_of req.verdict ≡ some score
    → pg.save_score db u req.document_id req.role_id
        (lib.dumps (score_payload score req.comment))
        req.comment
      ≡ (db', ok n)
    → config_of lib u ((r.view later).hashes (cfg_key u)) ≡ ok (some cfg)
    → sorted_ids ((r.view later).sets (cfg_sources_key u)) ≡ ok (source ∷ sources)
    → is_some (holder (r.view later) u) ≡ false
    → 0 < st.worker_advisory_lock_ttl_seconds
    → candidates_for_user pg db' u (source ∷ sources) cfg.date_from cfg.date_to cfg.ordering []
      ≡ ok ids
    → let db_after = (submit_score r lib pg now u req (db, srv)).0.0 in
      has_member (str_of req.document_id) (
        (r.view (generate_for_user r lib st pg db_after token now u true later).0).zsets
          (entries_key u))
      ≡ false
regenerate-submit_score r lib pg now u req score db db' srv later n st token source sources ids cfg
      has stored configured selected free positive found =
    rw (submit_score-saved r lib pg now u req score db srv db' n has stored) (
      regenerate_wanted pg db' u source sources ids cfg r lib st token now later configured selected
        free positive found req.document_id
      ∙ any_wanted-scored (pg.tables db').scores u (source ∷ sources) cfg.date_from cfg.date_to
          (pg.tables db').documents req.document_id recorded)
  where
    recorded : is_scored (pg.tables db').scores u req.document_id ≡ true
    recorded =
        (pg.saved_scores db u req.document_id req.role_id n _ req.comment db' stored).1 u
          req.document_id
        ∙ ground arith
