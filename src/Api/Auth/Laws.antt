-- ===== src/Api/Auth/Laws.antt =====
-- What login and logout do to the sessions.
use s3p_tape_service.Prelude.{
  ℕ, ◌+◌, ◌*◌, ◌≡◌, ◌≢◌, refl, ap, ◌∙◌, Bool, true, ◌&&◌, Option, none, some, [], ◌∷◌, ltb, arith,
  if◌then◌else◌,
}
use s3p_tape_service.Prelude.Text.{Text, codes}
use s3p_tape_service.Method.{continue}
use s3p_tape_service.Errors.{Exception, Result, ok, raise}
use s3p_tape_service.Auth.{current_user, current_user_lem, user_of, no_session, no_cookie}
use s3p_tape_service.RateLimit.{TokenBucket, allow}
use s3p_tape_service.Redis.{Redis, Keyspace}
use s3p_tape_service.Settings.{Settings}
use s3p_tape_service.Stdlib.{Stdlib}
use s3p_tape_service.Database.{Database}
use s3p_tape_service.Db.Users.{AuthedUser, is_expert, auth_by_token}
use s3p_tape_service.Store.Sessions.{day, key_of, idle_seconds, issue}
use s3p_tape_service.Store.Sessions.Lifetime.{issue_lem, validate-revoke}
use s3p_tape_service.Api.Auth.{
  Request, LoginRequest, SetCookie, set_cookie, delete_cookie, MeResponse, too_many, unknown_token,
  not_expert, client_ip, limiter, login_response, start_session, enter, admitted, login,
  revoke_cookie, logout,
}

-- Why a user who passed the throttle may not enter.
abbrev pub refusal : Option AuthedUser → Option Exception
refusal none = some unknown_token
refusal (some user) = if is_expert user then none else some not_expert

ltb-add : (a b c : ℕ) → ltb (a + b) (a + c) ≡ ltb b c
ltb-add a b c = ground arith

raise-ne-ok : {A : Type 0} (e : Exception) (a : A) → raise e ≢ ok a
raise-ne-ok e a h = cc

answer : Option Exception → Result MeResponse
answer none = raise too_many
answer (some e) = raise e

module _ (r : Redis) (lib : Stdlib) (s : Settings) (pg : Database) (ticks : ℕ) where
  open r use {Server, view, elapse, elapse_law, set_ex_law}

  -- What `logout` does once the user is known, or refused.
  abbrev leave : Option Text → Server × Result ℕ → Server × Result SetCookie
  unfolding revoke_cookie
  leave raw x =
      continue x.1
        (λ _ srv. (
          (revoke_cookie r lib s pg ticks raw srv).0,
          ok (delete_cookie s.session_cookie_name (codes "/")),
        ))
        x.0

  issue-clock :
      (now : ℕ) (raw : Text) (user_id : ℕ) (srv : Server)
      → (view (issue r lib s now raw user_id srv).0).clock ≡ (view srv).clock
  unfolding issue
  issue-clock now raw user_id srv = ap (λ (k : Keyspace). k.clock) ((set_ex_law _ _ _).state srv)

  module _ (db : pg.Db) (bucket : Option TokenBucket) (srv : Server) (mono now c : ℕ) (raw : Text)
      (req : LoginRequest) (request : Request) where
    -- The throttle's answer to this attempt.
    abbrev pub attempt : TokenBucket × Bool
    attempt = allow (limiter r lib s pg ticks bucket) (client_ip request) mono

    abbrev pub logged_in : (Option TokenBucket × Server) × Result MeResponse
    logged_in = login r lib s pg ticks db mono now (c ∷ raw) req request (bucket, srv)

    entered :
        (user : AuthedUser)
        → attempt.1 ≡ true
        → auth_by_token pg db req.token ≡ ok (some user)
        → is_expert user ≡ true
        → logged_in ≡ (
          (some attempt.0, (issue r lib s now (c ∷ raw) user.user_id srv).0),
          ok (record {
            user_id = user.user_id;
            cookie =
                set_cookie s.session_cookie_name
                  (c ∷ raw)
                  (s.session_absolute_ttl_days * 86400)
                  true
                  s.session_cookie_secure
                  s.session_cookie_samesite
                  (codes "/");
          }),
        )
    unfolding login_response login admitted enter start_session issue
    entered user allowed known expert = rw (allowed, known, expert)

    -- A request with the cookie of a session that was issued `seconds` before.
    let_in :
        (user_id seconds later : ℕ)
        → (current_user r lib s later
            (some (c ∷ raw))
            (elapse seconds (issue r lib s now (c ∷ raw) user_id srv).0).0).1
          ≡ (if ltb seconds (idle_seconds s) && ltb later (now + s.session_absolute_ttl_days * day)
              then ok user_id
              else raise no_session)
    let_in user_id seconds later =
        let srv' = (issue r lib s now (c ∷ raw) user_id srv).0 in
        let same = (elapse_law seconds).state srv' in
        let expires = now + s.session_absolute_ttl_days * day in
        current_user_lem r lib s (elapse seconds srv').0 later c raw user_id now expires now
          ((view srv).clock + idle_seconds s)
          (ap (λ (k : Keyspace). k.strings (key_of lib (c ∷ raw))) same
            ∙ (issue_lem r lib s srv now (c ∷ raw) user_id).1)
        ∙ ap (λ b. if b && ltb later expires then ok user_id else raise no_session)
            (ap (λ (k : Keyspace). ltb k.clock ((view srv).clock + idle_seconds s)) same
              ∙ ap (λ n. ltb (n + seconds) ((view srv).clock + idle_seconds s))
                  (issue-clock now (c ∷ raw) user_id srv)
              ∙ ltb-add (view srv).clock seconds (idle_seconds s))

    -- The token of an expert, sent by an address that the throttle lets pass. The response names the
    -- user and sets the cookie of the settings to the new session's id, out of reach of scripts, on
    -- every path and for the absolute lifetime in seconds, secure and same-site as the settings say;
    -- and a request with that id as its cookie, after any time on the server and at any reading of
    -- the clock, is let in as this user exactly while neither the idle nor the absolute lifetime of
    -- the session has passed.
    pub login_lem :
        (user : AuthedUser)
        → attempt.1 ≡ true
        → auth_by_token pg db req.token ≡ ok (some user)
        → is_expert user ≡ true
        → let ((_, srv'), result) = logged_in in
          (result
            ≡ ok (record {
              user_id = user.user_id;
              cookie =
                  set_cookie s.session_cookie_name
                    (c ∷ raw)
                    (s.session_absolute_ttl_days * 86400)
                    true
                    s.session_cookie_secure
                    s.session_cookie_samesite
                    (codes "/");
            }))
          × ((seconds later : ℕ)
              → (current_user r lib s later (some (c ∷ raw)) (elapse seconds srv').0).1 ≡ (
                  if ltb seconds (idle_seconds s)
                    && ltb later (now + s.session_absolute_ttl_days * day)
                  then ok user.user_id
                  else raise no_session))
    login_lem user allowed known expert =
        rw (entered user allowed known expert) (refl, let_in user.user_id)

  left_with :
      (cookie : SetCookie) (c : ℕ) (raw : Text) (later : ℕ) (x : Server × Result ℕ)
      → (leave (some (c ∷ raw)) x).1 ≡ ok cookie
      → (current_user r lib s later (some (c ∷ raw)) (leave (some (c ∷ raw)) x).0).1
        ≡ raise no_session
  unfolding revoke_cookie current_user user_of
  left_with cookie c raw later (srv, raise e) left = cc
  left_with cookie c raw later (srv, ok user) left =
      rw (validate-revoke r lib s srv later (c ∷ raw))

  logout_cookie :
      (srv : Server) (now later : ℕ) (raw : Option Text) (cookie : SetCookie)
      → (leave raw (current_user r lib s now raw srv)).1 ≡ ok cookie
      → (current_user r lib s later raw (leave raw (current_user r lib s now raw srv)).0).1
        ≡ raise no_session
  unfolding current_user leave
  logout_cookie srv now later none cookie left = absurd (raise-ne-ok no_cookie cookie left)
  logout_cookie srv now later (some []) cookie left = absurd (raise-ne-ok no_cookie cookie left)
  logout_cookie srv now later (some (c ∷ raw)) cookie left =
      left_with cookie c raw later (current_user r lib s now (some (c ∷ raw)) srv) left

  -- After a logout that succeeded, a request with the same cookie is refused.
  pub logout_lem :
      (srv : Server) (now later : ℕ) (request : Request) (cookie : SetCookie)
      → (logout r lib s pg ticks now request srv).1 ≡ ok cookie
      → (current_user r lib s later request.cookie (logout r lib s pg ticks now request srv).0).1
        ≡ raise no_session
  unfolding logout
  logout_lem srv now later request cookie left =
      logout_cookie srv now later request.cookie cookie left
