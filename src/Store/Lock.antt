-- ===== src/Store/Lock.antt =====
-- src/tape_service/store/lock.py: the lock that a worker holds while it regenerates a tape.
pub mod Laws
use s3p_tape_service.Prelude.{ℕ, Bool, true, false, Option, none, some, if◌then◌else◌}
use s3p_tape_service.Prelude.Text.{Text, text_eq}
use s3p_tape_service.Action.{Action, pure, ◌>>=◌}
use s3p_tape_service.Method.{Method, try_finally}
use s3p_tape_service.Keys.{lock_key}
use s3p_tape_service.Redis.{Redis}
use s3p_tape_service.Settings.{Settings}

-- `redis.call('GET', KEYS[1]) == ARGV[1]`
unfoldable pub holds_token : Option Text → Text → Bool
holds_token none token = false
holds_token (some v) token = text_eq v token

module _ (r : Redis) where
  open r use {Server, set_nx_ex, get, delete, exists}

  -- The Lua script `_RELEASE`, which Redis runs with no other command in between.
  unfoldable pub release : ℕ → Text → Action Server Unit
  unfolding holds_token
  release user_id token = do
    held ← get (lock_key user_id)
    if holds_token held token then delete (lock_key user_id) else pure tt

  unfoldable pub is_locked : ℕ → Action Server Bool
  is_locked user_id = exists (lock_key user_id)

  -- `if got: client.eval(_RELEASE, ...)`
  unfoldable pub release_if : Bool → ℕ → Text → Action Server Unit
  release_if true user_id token = release user_id token
  release_if false user_id token = pure tt

  -- The SET of `per_user_lock`; `token` is `secrets.token_hex(16)`.
  unfoldable pub acquire : Settings → Text → ℕ → Action Server Bool
  acquire s token user_id = set_nx_ex (lock_key user_id) token s.worker_advisory_lock_ttl_seconds

  -- `try: yield bool(got) finally: ...`, with the body of the `with` statement in place of `yield`
  unfoldable pub hold : {A : Type 0} → Text → ℕ → Bool → Method Server A → Method Server A
  unfolding release_if
  hold token user_id got body = try_finally body (release_if got user_id token)

  -- `with per_user_lock(client, user_id=user_id) as got: body`
  unfoldable pub per_user_lock :
      {A : Type 0} → Settings → Text → ℕ → (Bool → Method Server A) → Method Server A
  unfolding acquire hold
  per_user_lock s token user_id body = do
    got ← acquire s token user_id
    hold token user_id got (body got)
