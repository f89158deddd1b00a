-- ===== src/Api/Score/Again.antt =====
-- A second score of the same document, for `submit_score` of src/tape_service/api/tape.py.
use s3p_tape_service.Prelude.{ℕ, ◌≡◌, refl, ap, ◌∙◌, true, some}
use s3p_tape_service.Prelude.Text.{codes}
use s3p_tape_service.Errors.{
  Exception, Result, ok, raise, api_error, already_scored, unique_violation, status, code,
}
use s3p_tape_service.Errors.Answer.{IsAnswered, answered}
use s3p_tape_service.Redis.{Redis}
use s3p_tape_service.Stdlib.{Stdlib, Json}
use s3p_tape_service.Database.{Database}
use s3p_tape_service.Api.Score.{ScoreRequest, score_of, score_payload, scored_already, submit_score}
use s3p_tape_service.Api.Score.Laws.{submit_score-saved, submit_score-refused}

module _ (r : Redis) (lib : Stdlib) (pg : Database) (u : ℕ) where
  open r use {Server}

  -- The statement that a request sends to the database, for a verdict with this score.
  abbrev pub statement : ScoreRequest → Json → pg.Db → pg.Db × Result ℕ
  statement req score db =
      pg.save_score db u req.document_id req.role_id (lib.dumps (score_payload score req.comment))
        req.comment

  refused_again :
      (now : ℕ) (req : ScoreRequest) (score : Json) (db : pg.Db) (srv : Server)
      → score_of req.verdict ≡ some score
      → pg.has_scored db u req.document_id req.role_id ≡ true
      → ((e : Exception) → (statement req score db).1 ≡ raise e → e ≡ unique_violation)
      → let ((db_after, srv'), result) = submit_score r lib pg now u req (db, srv) in
        IsAnswered result 409
          (codes "ALREADY_SCORED")
          (codes "this document has already been scored by you")
        × (srv' ≡ srv)
        × (pg.tables db_after ≡ pg.tables db)
  unfolding scored_already status code api_error
  refused_again now req score db srv has old only = outcome (statement req score db) refl
    where
      outcome :
          (x : pg.Db × Result ℕ)
          → statement req score db ≡ x
          → let ((db_after, srv'), result) = submit_score r lib pg now u req (db, srv) in
            IsAnswered result 409
              (codes "ALREADY_SCORED")
              (codes "this document has already been scored by you")
            × (srv' ≡ srv)
            × (pg.tables db_after ≡ pg.tables db)
      outcome (db', ok n) sent =
          let (new, _) = pg.saved_role db u req.document_id req.role_id n _ req.comment db' sent in
          cc (old, new)
      outcome (db', raise e) sent =
          let violated : statement req score db ≡ (db', raise unique_violation) =
            sent ∙ ap (λ x. (db', raise x)) (only e (ap (λ x. x.1) sent)) in
          rw (submit_score-refused r lib pg now u req score db srv db' has violated) (
            answered _ already_scored (codes "this document has already been scored by you") refl,
            refl,
            pg.unsaved_scores db u req.document_id req.role_id _ req.comment db' _ violated,
          )

  -- Once a request has recorded a score, the user's next request for the same document and role, with
  -- any verdict that has a score and any comment, is answered with the status 409, the code
  -- ALREADY_SCORED and a message, provided the database fails with nothing but a violation of
  -- uniqueness; it changes nothing on the server, whatever happened there in between, nor in the
  -- tables of the database.
  pub submit_score_again :
      (now then : ℕ) (req again : ScoreRequest) (score score' : Json) (db db' : pg.Db)
      (srv later : Server) (n : ℕ)
      → score_of req.verdict ≡ some score
      → statement req score db ≡ (db', ok n)
      → again.document_id ≡ req.document_id
      → again.role_id ≡ req.role_id
      → score_of again.verdict ≡ some score'
      → ((e : Exception) → (statement again score' db').1 ≡ raise e → e ≡ unique_violation)
      → let recorded = (submit_score r lib pg now u req (db, srv)).0.0 in
        let ((db_after, srv'), result) = submit_score r lib pg then u again (recorded, later) in
        IsAnswered result 409
          (codes "ALREADY_SCORED")
          (codes "this document has already been scored by you")
        × (srv' ≡ later)
        × (pg.tables db_after ≡ pg.tables recorded)
  submit_score_again now then req again score score' db db' srv later n has stored document role
        has' only =
      rw (submit_score-saved r lib pg now u req score db srv db' n has stored) (
        refused_again then again score' db' later has'
          (rw (document, role)
            (pg.saved_role db u req.document_id req.role_id n _ req.comment db' stored).1)
          only)
