-- ===== src/Api/Auth.antt =====
-- src/tape_service/api/auth.py and src/tape_service/schemas/auth.py: login and logout. The throttle
-- is the module's variable `_login_limiter`; `mono` is the reading of `time.monotonic()`, in units of
-- which a second has `ticks`.
pub mod Laws
use s3p_tape_service.Prelude.{
  ℕ, ◌*◌, Bool, true, false, ◌&&◌, ◌||◌, Option, none, some, List, [], ◌∷◌, leb, ◌==◌,
  if◌then◌else◌,
}
use s3p_tape_service.Prelude.Text.{Text, codes}
use s3p_tape_service.Action
use s3p_tape_service.Method.{Method, pure, fail, lift, call, ◌>>=◌, ◌>>◌}
use s3p_tape_service.Errors.{
  Exception, Result, ok, raise, api, api_error, unauthorized, forbidden, rate_limited,
}
use s3p_tape_service.Auth.{current_user}
use s3p_tape_service.RateLimit.{TokenBucket, init, allow}
use s3p_tape_service.Redis.{Redis}
use s3p_tape_service.Settings.{Settings}
use s3p_tape_service.Stdlib.{Stdlib}
use s3p_tape_service.Database.{Database}
use s3p_tape_service.Db.Users.{AuthedUser, is_expert, auth_by_token}
use s3p_tape_service.Store.Sessions.{issue, revoke}

-- What the handlers read of a request: the header `x-forwarded-for`, the host of the client, and the
-- cookie named in the settings.
pub record Request : Type 0 where
  pub forwarded : Option Text
  pub host : Option Text
  pub cookie : Option Text

pub record LoginRequest : Type 0 where
  pub token : Text

-- The arguments of `response.set_cookie` and of `response.delete_cookie`.
pub data SetCookie : Type 0 where
  set_cookie :
      (key value : Text) (max_age : ℕ) (httponly secure : Bool) (samesite path : Text) → SetCookie
  delete_cookie : (key path : Text) → SetCookie

-- `MeResponse`, with the cookie of the response.
pub record MeResponse : Type 0 where
  pub user_id : ℕ
  pub cookie : SetCookie

-- The blanks of `str.strip()` among the 256 characters that a header can hold.
unfoldable pub is_space : ℕ → Bool
is_space c = (leb 9 c && leb c 13) || (leb 28 c && leb c 32) || c == 133 || c == 160

unfoldable pub strip_start : Text → Text
unfolding is_space
strip_start [] = []
strip_start (c ∷ s) = if is_space c then strip_start s else c ∷ s

abbrev pub put_before : ℕ → Text → Text
unfolding is_space
put_before c [] = if is_space c then [] else c ∷ []
put_before c (d ∷ s) = c ∷ d ∷ s

unfoldable pub strip_end : Text → Text
unfolding put_before
strip_end [] = []
strip_end (c ∷ s) = put_before c (strip_end s)

-- `s.split(",")[0]`
unfoldable pub before_comma : Text → Text
before_comma [] = []
before_comma (c ∷ s) = if c == b',' then [] else c ∷ before_comma s

unfoldable pub host_of : Option Text → Text
host_of none = codes "unknown"
host_of (some host) = host

unfoldable pub client_ip : Request → Text
unfolding strip_start strip_end before_comma host_of
client_ip request = elim request.forwarded [
  | none ↦ host_of request.host
  | some fwd ↦ elim fwd [
    | [] ↦ host_of request.host
    | c ∷ s ↦ strip_end (strip_start (before_comma (c ∷ s)))
  ]
]

unfoldable pub too_many : Exception
unfolding api_error
too_many = api (api_error rate_limited (codes "too many login attempts"))

unfoldable pub unknown_token : Exception
unfolding api_error
unknown_token = api (api_error unauthorized (codes "unknown token"))

unfoldable pub not_expert : Exception
unfolding api_error
not_expert = api (api_error forbidden (codes "expert privilege required"))

module _ (r : Redis) (lib : Stdlib) (s : Settings) (pg : Database) (ticks : ℕ) where
  open r use {Server}

  -- `_limiter()`
  unfoldable pub limiter : Option TokenBucket → TokenBucket
  limiter none = init s.login_rate_limit_per_ip (s.login_rate_limit_window_seconds * ticks)
  limiter (some bucket) = bucket

  unfoldable pub login_response : ℕ → Text → MeResponse
  login_response user_id raw = record {
    user_id = user_id;
    cookie =
        set_cookie s.session_cookie_name raw (s.session_absolute_ttl_days * 86400) true
          s.session_cookie_secure s.session_cookie_samesite (codes "/");
  }

  unfoldable pub start_session : ℕ → Text → AuthedUser → Method Server MeResponse
  unfolding issue login_response
  start_session now raw user = do
    value ← call (issue r lib s now raw user.user_id)
    pure (login_response user.user_id value)

  unfoldable pub enter : ℕ → Text → Option AuthedUser → Method Server MeResponse
  unfolding start_session unknown_token not_expert is_expert
  enter now raw none = fail unknown_token
  enter now raw (some user) = if is_expert user then start_session now raw user else fail not_expert

  -- What follows the check of the throttle.
  unfoldable pub admitted : pg.Db → ℕ → Text → LoginRequest → Method Server MeResponse
  unfolding enter auth_by_token
  admitted db now raw req = do user ← lift (auth_by_token pg db req.token); enter now raw user

  -- `raw` is the id that `issue` draws if it comes to that.
  unfoldable pub login :
      pg.Db
      → ℕ
      → ℕ
      → Text
      → LoginRequest
      → Request
      → Method (Option TokenBucket × Server) MeResponse
  unfolding limiter client_ip admitted too_many
  login db mono now raw req request (bucket, srv) =
      let (bucket', allowed) = allow (limiter bucket) (client_ip request) mono in
      let (srv', result) = (if allowed then admitted db now raw req else fail too_many) srv in
      ((some bucket', srv'), result)

  -- `if raw: session_store.revoke(...)`
  unfoldable pub revoke_cookie : Option Text → Action.Action Server Unit
  unfolding revoke
  revoke_cookie none = Action.pure tt
  revoke_cookie (some []) = Action.pure tt
  revoke_cookie (some (c ∷ raw)) = revoke r lib s (c ∷ raw)

  unfoldable pub logout : ℕ → Request → Method Server SetCookie
  unfolding current_user revoke_cookie
  logout now request = do
    current_user r lib s now request.cookie
    call (revoke_cookie request.cookie)
    pure (delete_cookie s.session_cookie_name (codes "/"))

  -- The user id of the response.
  unfoldable pub me : ℕ → Request → Method Server ℕ
  unfolding current_user
  me now request = current_user r lib s now request.cookie
