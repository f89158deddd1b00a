-- ===== src/Store/Sessions.antt =====
-- src/tape_service/store/sessions.py: login sessions. A datetime is a number of microseconds;
-- `now` is `datetime.now(UTC)`, and the raw id is what `secrets.token_urlsafe(48)` returned.
pub mod Laws
pub mod Lifetime
pub mod Race
use s3p_tape_service.Prelude.{
  ℕ, ◌+◌, ◌*◌, ◌/◌, Bool, true, false, Option, none, some, leb, if◌then◌else◌,
}
use s3p_tape_service.Prelude.Text.{Text, codes, text_eq}
use s3p_tape_service.Action.{Action, pure, ◌>>=◌, ◌>>◌}
use s3p_tape_service.Errors.{Result, ok, raise, key_error, type_error}
use s3p_tape_service.Keys.{session_key}
use s3p_tape_service.Redis.{Redis}
use s3p_tape_service.Settings.{Settings}
use s3p_tape_service.Stdlib.{
  Stdlib, Json, null, bool, num, half, str, arr, obj, Members, end, member, field?, set_field,
}
use s3p_tape_service.Store.Tape.Entries.{int_or_raise}

pub record Session : Type 0 where
  pub user_id : ℕ
  pub created_at : ℕ
  pub expires_at : ℕ
  pub last_seen : ℕ

abbrev pub day : ℕ
day = 86400 * 1000000

abbrev pub idle_seconds : Settings → ℕ
idle_seconds s = s.session_idle_ttl_days * 86400

-- `int(value)` for a JSON value
unfoldable pub int_of_json : Json → Result ℕ
unfolding int_or_raise
int_of_json (num n) = ok n
int_of_json (half n) = ok (n / 2)
int_of_json (bool true) = ok 1
int_of_json (bool false) = ok 0
int_of_json (str t) = int_or_raise t
int_of_json _ = raise type_error

unfoldable pub int_of_field : Option Json → Result ℕ
unfolding int_of_json
int_of_field none = raise key_error
int_of_field (some j) = int_of_json j

module _ (lib : Stdlib) where
  -- `_key(_hash(raw))`
  unfoldable pub key_of : Text → Text
  key_of raw = session_key (lib.hexdigest raw)

  unfoldable pub date_of : Option Json → Option ℕ
  date_of (some (str t)) = lib.fromisoformat t
  date_of _ = none

  -- The three dates of a payload, and `none` where one of them raises `KeyError`, `TypeError` or
  -- `ValueError`: a value that is no dict, a missing key, a value that is no text, or no date.
  unfoldable pub dates : Members → Option (ℕ × ℕ × ℕ)
  unfolding date_of field?
  dates m = elim (date_of (field? (codes "created_at") m)) [
    | none ↦ none
    | some created ↦ elim (date_of (field? (codes "expires_at") m)) [
      | none ↦ none
      | some expires ↦ elim (date_of (field? (codes "last_seen") m)) [
        | none ↦ none
        | some last_seen ↦ some (created, expires, last_seen)
      ]
    ]
  ]

  unfoldable pub payload : ℕ → ℕ → ℕ → ℕ → Members
  payload user_id created expires last_seen = member (codes "user_id") (num user_id) (
      member (codes "created_at") (str (lib.isoformat created)) (
        member (codes "expires_at") (str (lib.isoformat expires))
          (member (codes "last_seen") (str (lib.isoformat last_seen)) end)))

  -- The `Session(...)` of the last statement.
  unfoldable pub session_of : Members → ℕ → ℕ → ℕ → Result (Option Session)
  unfolding int_of_field field?
  session_of m created expires now = elim (int_of_field (field? (codes "user_id") m)) [
    | raise e ↦ raise e
    | ok user_id ↦ ok (
        some (record {
          user_id = user_id;
          created_at = created;
          expires_at = expires;
          last_seen = now;
        }))
  ]

module _ (r : Redis) (lib : Stdlib) (s : Settings) where
  open r use {Server, set_ex, get, delete}

  unfoldable pub issue : ℕ → Text → ℕ → Action Server Text
  unfolding payload key_of
  issue now raw user_id = do
    set_ex (key_of lib raw)
        (lib.dumps (obj (payload lib user_id now (now + s.session_absolute_ttl_days * day) now)))
        (idle_seconds s)
    pure raw

  -- `client.delete(...)`, `return None`
  unfoldable pub reject : Text → Action Server (Result (Option Session))
  unfolding key_of
  reject raw = do delete (key_of lib raw); pure (ok none)

  unfoldable pub refresh : ℕ → Text → Members → ℕ → ℕ → Action Server (Result (Option Session))
  unfolding session_of set_field key_of
  refresh now raw m created expires = do
    set_ex (key_of lib raw)
        (lib.dumps (obj (set_field (codes "last_seen") (str (lib.isoformat now)) m)))
        (idle_seconds s)
    pure (session_of lib m created expires now)

  unfoldable pub check_dates :
      ℕ → Text → Members → Option (ℕ × ℕ × ℕ) → Action Server (Result (Option Session))
  unfolding reject refresh
  check_dates now raw m none = reject raw
  check_dates now raw m (some (created, expires, last_seen)) =
      if leb expires now then reject raw else refresh now raw m created expires

  unfoldable pub check_payload : ℕ → Text → Option Json → Action Server (Result (Option Session))
  unfolding check_dates dates reject
  check_payload now raw (some (obj m)) = check_dates now raw m (dates lib m)
  check_payload now raw _ = reject raw

  -- What follows the GET.
  unfoldable pub check_blob : ℕ → Text → Option Text → Action Server (Result (Option Session))
  unfolding check_payload
  check_blob now raw none = pure (ok none)
  check_blob now raw (some blob) = check_payload now raw (lib.loads blob)

  unfoldable pub validate : ℕ → Text → Action Server (Result (Option Session))
  unfolding check_blob key_of
  validate now raw = do blob ← get (key_of lib raw); check_blob now raw blob

  -- The same text as `validate`, with an `await` at each command.
  unfoldable pub validate_async : ℕ → Text → Action Server (Result (Option Session))
  unfolding check_blob key_of
  validate_async now raw = do blob ← get (key_of lib raw); check_blob now raw blob

  unfoldable pub revoke : Text → Action Server Unit
  unfolding key_of
  revoke raw = delete (key_of lib raw)
