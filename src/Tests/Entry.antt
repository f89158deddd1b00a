-- ===== src/Tests/Entry.antt =====
-- Login and logout at concrete inputs: the token `expert123` belongs to the expert 7.
use s3p_tape_service.Prelude.{
  List, ℕ, ◌+◌, ◌*◌, ◌≡◌, refl, ◌∙◌, true, ◌&&◌, none, some, [], ◌∷◌, ltb, if◌then◌else◌,
}
use s3p_tape_service.Prelude.Text.{codes, text_eq}
use s3p_tape_service.Errors.{ok, raise}
use s3p_tape_service.Auth.{current_user, current_user_lem, no_session}
use s3p_tape_service.RateLimit.{init, prune, allow}
use s3p_tape_service.Redis.{Keyspace, reference}
use s3p_tape_service.Stdlib.{obj, bool, end, member}
use s3p_tape_service.Db.Users.{AuthedUser, is_expert, auth_by_token}
use s3p_tape_service.Store.Sessions.{day, idle_seconds, issue}
use s3p_tape_service.Store.Sessions.Lifetime.{issue_lem}
use s3p_tape_service.Api.Auth.{
  Request, LoginRequest, set_cookie, delete_cookie, limiter, login, logout, client_ip,
}
use s3p_tape_service.Api.Auth.Laws.{attempt, login_lem, logout_lem}
use s3p_tape_service.Api.Ws.{Message}
use s3p_tape_service.Tests.Instances.{std, defaults, database}
use s3p_tape_service.Tests.Samples.{empty}

abbrev request : Request
request = record { forwarded = none; host = some (codes "h"); cookie = none }

abbrev credentials : LoginRequest
credentials = record { token = codes "expert123" }

abbrev expert : AuthedUser
expert = record { user_id = 7; privilege = obj (member (codes "expert") (bool true) end) }

-- The first of several addresses, without the blanks around it.
forwarded_ip :
    client_ip (record { forwarded = some (codes " 10.0.0.1 , proxy"); host = none; cookie = none })
    ≡ codes "10.0.0.1"
unfolding client_ip
forwarded_ip = refl

allowed :
    (attempt reference std defaults database 1000 [] none empty 5 50 119 [] credentials request).1
    ≡ true
unfolding allow limiter init prune
allowed = refl

known : auth_by_token database [] (codes "expert123") ≡ ok (some expert)
unfolding auth_by_token text_eq
known = refl

expert-is_expert : is_expert expert ≡ true
unfolding is_expert
expert-is_expert = refl

login_lem_example :
    let ((_, srv'), result) =
      login reference std defaults database 1000 [] 5 50
        (119 ∷ [])
        credentials
        request
        (none, empty) in
    (result
      ≡ ok (record {
        user_id = 7;
        cookie =
            set_cookie defaults.session_cookie_name
              (119 ∷ [])
              (30 * 86400)
              true
              defaults.session_cookie_secure
              defaults.session_cookie_samesite
              (codes "/");
      }))
    × ((seconds later : ℕ)
        → (current_user reference std defaults later
            (some (119 ∷ []))
            (reference.elapse seconds srv').0).1
          ≡ (if ltb seconds (idle_seconds defaults) && ltb later (50 + 30 * day)
              then ok 7
              else raise no_session))
login_lem_example =
    login_lem reference std defaults database 1000 [] none empty 5 50 119 [] credentials request
      expert allowed known expert-is_expert

-- User 7 has logged in at 10.
abbrev entered : Keyspace
entered = (issue reference std defaults 10 (119 ∷ []) 7 empty).0

abbrev with_cookie : Request
with_cookie = record { forwarded = none; host = none; cookie = some (119 ∷ []) }

let_in : (current_user reference std defaults 30 (some (119 ∷ [])) entered).1 ≡ ok 7
let_in =
    current_user_lem reference std defaults entered 30 119 [] 7 10 (10 + 30 * day) 10
      (100 + idle_seconds defaults) (issue_lem reference std defaults empty 10 (119 ∷ []) 7).1
    ∙ unfold issue in refl

left :
    (logout reference std defaults database 1000 30 with_cookie entered).1
    ≡ ok (delete_cookie (codes "s3p_session") (codes "/"))
unfolding logout
left = rw let_in refl

logout_lem_example :
    (current_user reference std defaults 40
      (some (119 ∷ []))
      (logout reference std defaults database 1000 30 with_cookie entered).0).1
    ≡ raise no_session
logout_lem_example =
    logout_lem reference std defaults database 1000 entered 30 40 with_cookie
      (delete_cookie (codes "s3p_session") (codes "/")) left

-- The second message is the confirmation of the subscription; the client disconnects after one frame.
abbrev messages : List Message
messages =
    record { type = codes "message"; payload = codes "a" }
    ∷ record { type = codes "subscribe"; payload = codes "1" }
    ∷ record { type = codes "message"; payload = codes "b" }
    ∷ []
