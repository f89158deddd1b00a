-- ===== src/Tests/Requests.antt =====
-- A request with the cookie of a stored session.
use s3p_tape_service.Prelude.{◌≡◌, ◌↔◌, true, none, some, [], ◌∷◌}
use s3p_tape_service.Prelude.Text.{Text, codes, text_eq_refl}
use s3p_tape_service.Auth.{current_user, current_user_lem}
use s3p_tape_service.Db.Users.{AuthedUser, is_expert, GrantsExpert, is_expert_iff}
use s3p_tape_service.Errors.{ok}
use s3p_tape_service.Redis.{Keyspace, reference, update}
use s3p_tape_service.Stdlib.{obj, member, end, arr, cons, nil, str}
use s3p_tape_service.Store.Sessions.{payload, key_of}
use s3p_tape_service.Store.Sessions.Laws.{Stored}
use s3p_tape_service.Tests.Instances.{std, defaults}
use s3p_tape_service.Tests.Samples.{empty}

abbrev cookie : Text
cookie = 65 ∷ []

abbrev logged_in : Keyspace
logged_in = record empty {
  strings =
      update (λ _. none) (key_of std cookie)
        (some (std.dumps (obj (payload std 7 10 9000 20)), 1209700));
}

logged_in-Stored : Stored std logged_in (key_of std cookie) 7 10 9000 20 1209700
logged_in-Stored = rw (text_eq_refl (key_of std cookie))

current_user_lem_example : (current_user reference std defaults 30 (some cookie) logged_in).1 ≡ ok 7
current_user_lem_example =
    current_user_lem reference std defaults logged_in 30 65 [] 7 10 9000 20 1209700 logged_in-Stored

abbrev expert : AuthedUser
expert = record {
  user_id = 7;
  privilege = obj (
      member (codes "bot") (arr (cons (str (codes "admin")) (cons (str (codes "expert")) nil)))
        end);
}

is_expert_iff_example : (is_expert expert ≡ true) ↔ GrantsExpert expert.privilege
is_expert_iff_example = is_expert_iff expert
