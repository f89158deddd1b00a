-- ===== src/Auth.antt =====
-- src/tape_service/auth/dependencies.py: who sends a request. The cookie is `none` if the request
-- has none of that name.
use s3p_tape_service.Prelude.{
  ℕ, ◌≡◌, refl, ap, ◌&&◌, Option, none, some, [], ◌∷◌, arith, leb, ltb, if◌then◌else◌, Bool-cases,
  inl, inr,
}
use s3p_tape_service.Prelude.Text.{Text, codes}
use s3p_tape_service.Method.{Method, pure, fail, ◌>>=◌}
use s3p_tape_service.Errors.{Result, ok, raise, Exception, api, api_error, unauthorized}
use s3p_tape_service.Redis.{Redis, Keyspace}
use s3p_tape_service.Settings.{Settings}
use s3p_tape_service.Stdlib.{Stdlib}
use s3p_tape_service.Store.Sessions.{Session, key_of, validate}
use s3p_tape_service.Store.Sessions.Laws.{Stored}
use s3p_tape_service.Store.Sessions.Lifetime.{validate_lem}

unfoldable pub no_cookie : Exception
unfolding api_error
no_cookie = api (api_error unauthorized (codes "missing session cookie"))

unfoldable pub no_session : Exception
unfolding api_error
no_session = api (api_error unauthorized (codes "invalid or expired session"))

module _ (r : Redis) (lib : Stdlib) (s : Settings) where
  open r use {Server, view}

  -- `CurrentUser(user_id=sess.user_id)` is its user id.
  unfoldable pub user_of : Option Session → Method Server ℕ
  unfolding no_session
  user_of none = fail no_session
  user_of (some sess) = pure sess.user_id

  unfoldable pub current_user : ℕ → Option Text → Method Server ℕ
  unfolding user_of no_cookie
  current_user now none = fail no_cookie
  current_user now (some []) = fail no_cookie
  current_user now (some (c ∷ raw)) = do sess ← validate r lib s now (c ∷ raw); user_of sess

  -- A request whose cookie names a stored session is let in, as the session's user, exactly if the
  -- server's deadline and the absolute expiry both lie ahead; otherwise it is refused as
  -- unauthorized.
  pub current_user_lem :
      (srv : Server) (now c : ℕ) (raw : Text) (user created expires last_seen deadline : ℕ)
      → Stored lib (view srv) (key_of lib (c ∷ raw)) user created expires last_seen deadline
      → (current_user now (some (c ∷ raw)) srv).1
        ≡ (if ltb (view srv).clock deadline && ltb now expires then ok user else raise no_session)
  unfolding current_user
  current_user_lem srv now c raw user created expires last_seen deadline stored =
      let result =
        ap (λ (x : Keyspace × Result (Option Session)). x.1)
          (validate_lem r lib s (c ∷ raw) user created expires srv last_seen deadline now stored) in
      elim (Bool-cases (ltb (view srv).clock deadline)) [
        | inr late ↦ rw (result, late) refl
        | inl early ↦ elim (Bool-cases (leb expires now)) [
          | inl expired ↦ rw (result, early, expired) (ground arith)
          | inr fresh ↦ rw (result, early, fresh) (ground arith)
        ]
      ]
