-- ===== src/Api/Score.antt =====
-- src/tape_service/api/tape.py: `submit_score`, with `ScoreRequest` of
-- src/tape_service/schemas/score.py. It writes to the database and then to Redis.
pub mod Laws
pub mod Again
use s3p_tape_service.Prelude.{ℕ, Bool, true, false, Option, none, some, if◌then◌else◌}
use s3p_tape_service.Prelude.Text.{Text, codes, text_eq}
use s3p_tape_service.Action.{Action, pure, ◌>>=◌, ◌>>◌}
use s3p_tape_service.Method.{Method}
use s3p_tape_service.Errors.{
  Exception, Result, ok, raise, api, api_error, already_scored, already_scored_error, key_error,
}
use s3p_tape_service.Redis.{Redis}
use s3p_tape_service.Stdlib.{Stdlib, Json, null, half, str, obj, Members, end, member}
use s3p_tape_service.Database.{Database}
use s3p_tape_service.Db.Score.{save}
use s3p_tape_service.Store.Events.{publish, make_tape_entry_removed}
use s3p_tape_service.Store.Tape.Entries.{remove_entry}

pub record ScoreRequest : Type 0 where
  pub document_id : ℕ
  pub role_id : ℕ
  pub verdict : Text
  pub comment : Option Text

-- `_VERDICT_TO_SCORE[verdict]`: 1.0, 0.0 or 0.5
unfoldable pub score_of : Text → Option Json
unfolding text_eq
score_of verdict =
    if text_eq verdict (codes "yes")
    then some (half 2)
    else if text_eq verdict (codes "no")
    then some (half 0)
    else if text_eq verdict (codes "unsure")
    then some (half 1)
    else none

unfoldable pub comment_json : Option Text → Json
comment_json none = null
comment_json (some t) = str t

unfoldable pub score_payload : Json → Option Text → Json
unfolding comment_json
score_payload score comment =
    obj (member (codes "score") score (member (codes "comment") (comment_json comment) end))

unfoldable pub scored_already : Exception
unfolding api_error
scored_already =
    api (api_error already_scored (codes "this document has already been scored by you"))

-- `except AlreadyScored: raise ApiError(...) from None`
abbrev pub translate : Exception → Exception
unfolding scored_already
translate already_scored_error = scored_already
translate e = e

module _ (r : Redis) (lib : Stdlib) (pg : Database) (now : ℕ) (user_id : ℕ) where
  open r use {Server}

  -- The statements after the `try`, for what they do to the server.
  unfoldable pub clean_tape : ℕ → Action Server ℕ
  unfolding remove_entry publish
  clean_tape document_id = do
    remove_entry r user_id document_id
    publish r lib user_id (make_tape_entry_removed lib now user_id document_id)

  unfoldable pub after_save : ℕ → Server → pg.Db × Result ℕ → (pg.Db × Server) × Result ℕ
  unfolding clean_tape translate
  after_save document_id srv (db, raise e) = ((db, srv), raise (translate e))
  after_save document_id srv (db, ok score_id) = ((db, (clean_tape document_id srv).0), ok score_id)

  unfoldable pub save_verdict : ScoreRequest → Option Json → Method (pg.Db × Server) ℕ
  unfolding after_save save score_payload
  save_verdict req none (db, srv) = ((db, srv), raise key_error)
  save_verdict req (some score) (db, srv) = after_save req.document_id srv (
      save pg lib user_id req.document_id req.role_id (score_payload score req.comment) req.comment
        db)

  -- The result stands for `{"score_id": score_id}`.
  unfoldable pub submit_score : ScoreRequest → Method (pg.Db × Server) ℕ
  unfolding save_verdict
  submit_score req = save_verdict req (score_of req.verdict)
