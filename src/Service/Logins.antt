-- ===== src/Service/Logins.antt =====
-- Logging in and out and opening a WebSocket write to Redis by the service's commands. A session has
-- no user in its key, so they stand for any user.
use s3p_tape_service.Prelude.{ℕ, Bool, Option, none, some, List, [], ◌∷◌}
use s3p_tape_service.Prelude.Text.{Text, codes}
use s3p_tape_service.Errors.{ok, raise}
use s3p_tape_service.Redis.{Keyspace, reference}
use s3p_tape_service.Redis.Command.{live}
use s3p_tape_service.Settings.{Settings}
use s3p_tape_service.Stdlib.{Stdlib}
use s3p_tape_service.Database.{Database}
use s3p_tape_service.RateLimit.{TokenBucket, allow}
use s3p_tape_service.Store.Sessions.{validate_async, key_of}
use s3p_tape_service.Db.Users.{AuthedUser, is_expert, auth_by_token}
use s3p_tape_service.Api.Auth.{
  Request, LoginRequest, start_session, enter, admitted, login, limiter, client_ip, too_many,
  unknown_token, not_expert, login_response, revoke_cookie, logout, delete_cookie,
}
use s3p_tape_service.Api.Ws.{
  Message, session_of_cookie, handshake, ws_endpoint, is_foreign, greet, close, close_unauthorized,
}
use s3p_tape_service.Service.Steps.{Steps}
use s3p_tape_service.Service.Follows.{
  Follows, Follows-read, Follows-bind, Follows-if, Follows-call, Follows-lift, Follows-then,
}
use s3p_tape_service.Service.Stores.{issue-Follows, revoke-Follows, check_blob-Follows}
use s3p_tape_service.Service.Requests.{current_user-Follows}

module _ {b : Bool} {l : ℕ} (u : ℕ) (lib : Stdlib) (st : Settings) where
  module _ (pg : Database) (ticks : ℕ) where
    start_session-Follows :
        (now : ℕ) (raw : Text) (user : AuthedUser)
        → Follows b l u (start_session reference lib st pg ticks now raw user)
    unfolding start_session
    start_session-Follows now raw user =
        Follows-then (Follows-call (issue-Follows u lib st raw now user.user_id))
          λ value. Follows-lift (ok (login_response reference lib st pg ticks user.user_id value))

    enter-Follows :
        (now : ℕ) (raw : Text) (user : Option AuthedUser)
        → Follows b l u (enter reference lib st pg ticks now raw user)
    unfolding enter
    enter-Follows now raw none = Follows-lift (raise unknown_token)
    enter-Follows now raw (some user) =
        Follows-if (is_expert user) (start_session-Follows now raw user)
          (Follows-lift (raise not_expert))

    admitted-Follows :
        (db : pg.Db) (now : ℕ) (raw : Text) (req : LoginRequest)
        → Follows b l u (admitted reference lib st pg ticks db now raw req)
    unfolding admitted
    admitted-Follows db now raw req =
        Follows-then (Follows-lift (auth_by_token pg db req.token)) (enter-Follows now raw)

    pub login-Steps :
        (db : pg.Db) (mono now : ℕ) (raw : Text) (req : LoginRequest) (request : Request)
        (bucket : Option TokenBucket) (s : Keyspace)
        → Steps b l u s
            (login reference lib st pg ticks db mono now raw req request (bucket, s)).0.1
    unfolding login
    login-Steps db mono now raw req request bucket s =
        let (_, allowed) =
          allow (limiter reference lib st pg ticks bucket) (client_ip request) mono in
        (Follows-if allowed (admitted-Follows db now raw req) (Follows-lift (raise too_many))).at s

    revoke_cookie-Follows :
        (cookie : Option Text) → Follows b l u (revoke_cookie reference lib st pg ticks cookie)
    unfolding revoke_cookie
    revoke_cookie-Follows none = Follows-read λ _. tt
    revoke_cookie-Follows (some []) = Follows-read λ _. tt
    revoke_cookie-Follows (some (c ∷ raw)) = revoke-Follows u lib st (c ∷ raw)

    pub logout-Follows :
        (now : ℕ) (request : Request) → Follows b l u (logout reference lib st pg ticks now request)
    unfolding logout
    logout-Follows now request =
        Follows-then (current_user-Follows u lib st now request.cookie) λ _.
          Follows-then (Follows-call (revoke_cookie-Follows request.cookie))
            λ _. Follows-lift (ok (delete_cookie st.session_cookie_name (codes "/")))

  session_of_cookie-Follows :
      (now : ℕ) (cookie : Option Text)
      → Follows b l u (session_of_cookie reference lib st now cookie)
  unfolding session_of_cookie validate_async
  session_of_cookie-Follows now none = Follows-lift (ok none)
  session_of_cookie-Follows now (some []) = Follows-lift (ok none)
  session_of_cookie-Follows now (some (c ∷ raw)) =
      Follows-bind (Follows-read (λ s. live s.clock (s.strings (key_of lib (c ∷ raw)))))
        λ blob. check_blob-Follows u lib st (c ∷ raw) now blob

  pub ws_endpoint-Follows :
      (now : ℕ) (origin cookie : Option Text) (sends : ℕ) (messages : List Message)
      → Follows b l u (ws_endpoint reference lib st now origin cookie sends messages)
  unfolding ws_endpoint handshake
  ws_endpoint-Follows now origin cookie sends messages =
      Follows-if (is_foreign st.cors_allow_origins origin)
        (Follows-lift (ok (close close_unauthorized ∷ [])))
        (Follows-then (session_of_cookie-Follows now cookie)
          λ sess. Follows-lift (ok (greet sends messages sess)))
