-- ===== src/Tests/Lives.antt =====
-- The two processes from start to end, with pools that are numbers.
use s3p_tape_service.Prelude.{if◌then◌else◌, ℕ, ◌≡◌, refl, true, none, List, [], ◌∷◌}
use s3p_tape_service.Prelude.Text.{codes}
use s3p_tape_service.Method.{Method}
use s3p_tape_service.Errors.{ok, raise, db_error, runtime_error}
use s3p_tape_service.Stdlib.{str}
use s3p_tape_service.Logging.{is_secret}
use s3p_tape_service.Logging.Format.{LogRecord, payload_of, payload_of-IsHidden, IsHidden}
use s3p_tape_service.Stdlib.{field?}
use s3p_tape_service.App.{Process, Libraries, lifespan, health}
use s3p_tape_service.App.Lifespan.{opened, ended_as, attempt, all_ok, lifespan_lem}
use s3p_tape_service.Worker.Entry.{Worker}
use s3p_tape_service.Worker.Scheduler.{Job}
use s3p_tape_service.Tests.Instances.{defaults}

abbrev fresh : Process ℕ ℕ ℕ
fresh = record {
  loggers = record { handlers = []; level = codes "WARNING"; propagate = λ _. true };
  db = none;
  redis = none;
  async = none;
  closed = [];
}

abbrev libraries : Libraries ℕ ℕ ℕ
libraries = record {
  is_level = λ _. true;
  made_db = 1;
  db_usable = ok tt;
  made_redis = 2;
  redis_ping = ok tt;
  made_async = 3;
  async_ping = ok tt;
  close_db = λ _. ok tt;
  close_redis = λ _. raise runtime_error;
  close_async = λ _. ok tt;
}

-- The application fails while it serves, and the pool of Redis cannot be closed.
abbrev failing : Method (Process ℕ ℕ ℕ) Unit
failing p = (p, raise db_error)

lifespan_lem_example :
    let (q, result) = failing (opened libraries defaults fresh) in
    let xa = attempt libraries.close_async q.async in
    let xr = attempt libraries.close_redis q.redis in
    let xd = attempt libraries.close_db q.db in
    (lifespan libraries (ok defaults) failing fresh ≡ ended_as xa xr xd q result)
    × (health (λ _. ok tt) (lifespan libraries (ok defaults) failing fresh).0.db
        ≡ (if all_ok xa xr xd then raise runtime_error else health (λ _. ok tt) q.db))
lifespan_lem_example =
    lifespan_lem libraries defaults failing (λ _. ok tt) fresh (refl, refl, refl, refl) refl refl
      refl

-- The scheduler ends at once.
abbrev ending : List Job → Method (Worker ℕ ℕ ℕ ℕ) Unit
ending jobs w = (w, ok tt)

-- A record with a token in a field and one in a field that replaces the level.
abbrev line : LogRecord
line = record {
  time = codes "t";
  levelname = codes "INFO";
  name = codes "n";
  message = codes "m";
  exc_text = none;
  fields =
      (codes "Auth_Token", str (codes "abc"))
      ∷ (codes "level", str (codes "x"))
      ∷ (codes "module", str (codes "y"))
      ∷ [];
}

payload_of-IsHidden_example : IsHidden (field? (codes "Auth_Token") (payload_of line))
payload_of-IsHidden_example =
    payload_of-IsHidden (codes "Auth_Token") (unfold is_secret in refl) line
