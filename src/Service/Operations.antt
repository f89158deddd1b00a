-- ===== src/Service/Operations.antt =====
-- What clients, the worker and the platform make the service do, each as one operation for a user.
use s3p_tape_service.Prelude.{true, ℕ, Bool, Option, some, List}
use s3p_tape_service.Prelude.Text.{Text}
use s3p_tape_service.Redis.{Keyspace, reference}
use s3p_tape_service.Settings.{Settings}
use s3p_tape_service.Stdlib.{Stdlib}
use s3p_tape_service.Database.{Database}
use s3p_tape_service.Auth.{current_user}
use s3p_tape_service.Api.Tape.{read_tape}
use s3p_tape_service.Api.Score.{ScoreRequest, submit_score}
use s3p_tape_service.Api.Config.{ConfigUpdate, write_config}
use s3p_tape_service.Worker.Generator.{generate_for_user}
use s3p_tape_service.Worker.Generator.Commands.{generate_for_user-Follows}
use s3p_tape_service.Worker.Listener.{clear_entry}
use s3p_tape_service.Service.Steps.{Steps}
use s3p_tape_service.Service.Requests.{
  clear_entry-Follows, read_tape-Follows, submit_score-Steps, write_config-Follows,
  current_user-Follows, read_config-Follows,
}
use s3p_tape_service.RateLimit.{TokenBucket}
use s3p_tape_service.Api.Auth.{Request, LoginRequest, login, logout}
use s3p_tape_service.Api.Ws.{Message, ws_endpoint}
use s3p_tape_service.Api.Config
use s3p_tape_service.Service.Logins.{login-Steps, logout-Follows, ws_endpoint-Follows}

-- `look` reads the configuration; `authenticate` is the check of the cookie that precedes each
-- request; `connect` opens a WebSocket; `notice` is the platform's notification that the user has
-- scored the document. The session of `log_in`, `log_out` and `connect` may be anyone's.
pub data Operation (pg : Database) : Type 0 where
  generate : (db : pg.Db) (token : Text) (dirty : Bool) → Operation pg
  read : (db : pg.Db) (after : Option ℕ) → Operation pg
  score : (db : pg.Db) (req : ScoreRequest) → Operation pg
  configure : (db : pg.Db) (update : ConfigUpdate) → Operation pg
  look : (db : pg.Db) → Operation pg
  notice : (document_id : ℕ) → Operation pg
  authenticate : (cookie : Option Text) → Operation pg
  log_in :
      (db : pg.Db) (ticks mono : ℕ) (raw : Text) (req : LoginRequest) (request : Request)
      (bucket : Option TokenBucket)
      → Operation pg
  log_out : (ticks : ℕ) (request : Request) → Operation pg
  connect : (origin cookie : Option Text) (sends : ℕ) (messages : List Message) → Operation pg

module _ (lib : Stdlib) (st : Settings) (pg : Database) (now u : ℕ) where
  -- The server after the operation, whether it returned or raised.
  unfoldable pub perform : Operation pg → Keyspace → Keyspace
  unfolding read_tape submit_score write_config clear_entry current_user login logout ws_endpoint
      Config.read_config
  perform (generate db token dirty) s =
      (generate_for_user reference lib st pg db token now u dirty s).0
  perform (read db after) s = (read_tape reference lib pg db now u after s).0
  perform (score db req) s = (submit_score reference lib pg now u req (db, s)).0.1
  perform (configure db update) s = (write_config reference lib pg db now u update s).0
  perform (notice d) s = (clear_entry reference lib now (some (u, d)) s).0
  perform (look db) s = (Config.read_config reference lib pg db now u s).0
  perform (log_in db ticks mono raw req request bucket) s =
      (login reference lib st pg ticks db mono now raw req request (bucket, s)).0.1
  perform (log_out ticks request) s = (logout reference lib st pg ticks now request s).0
  perform (connect origin cookie sends messages) s =
      (ws_endpoint reference lib st now origin cookie sends messages s).0
  perform (authenticate cookie) s = (current_user reference lib st now cookie s).0

  -- Each operation writes to the server by the commands for its own user and those for sessions only,
  -- in some order and number, whether it returns or raises.
  pub perform-Steps :
      (op : Operation pg) (s : Keyspace)
      → Steps true st.worker_advisory_lock_ttl_seconds u s (perform op s)
  unfolding perform
  perform-Steps (generate db token dirty) s =
      (generate_for_user-Follows lib st pg db token now u dirty).at s
  perform-Steps (read db after) s = (read_tape-Follows lib now u pg db after).at s
  perform-Steps (score db req) s = submit_score-Steps lib now u pg db req s
  perform-Steps (configure db update) s = (write_config-Follows lib now u pg db update).at s
  perform-Steps (notice d) s = (clear_entry-Follows lib now u d).at s
  perform-Steps (look db) s = (read_config-Follows lib now u pg db).at s
  perform-Steps (log_in db ticks mono raw req request bucket) s =
      login-Steps u lib st pg ticks db mono now raw req request bucket s
  perform-Steps (log_out ticks request) s = (logout-Follows u lib st pg ticks now request).at s
  perform-Steps (connect origin cookie sends messages) s =
      (ws_endpoint-Follows u lib st now origin cookie sends messages).at s
  perform-Steps (authenticate cookie) s = (current_user-Follows u lib st now cookie).at s
