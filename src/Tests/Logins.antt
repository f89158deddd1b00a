-- ===== src/Tests/Logins.antt =====
-- Sessions at concrete inputs.
use s3p_tape_service.Prelude.{ℕ, ◌+◌, ◌≡◌, refl, none, some, List, [], ◌∷◌, arith, map}
use s3p_tape_service.Prelude.Text.{text_eq_refl}
use s3p_tape_service.Action.{for_map}
use s3p_tape_service.Redis.{Keyspace, reference, update}
use s3p_tape_service.Stdlib.{obj}
use s3p_tape_service.Store.Sessions.{payload, key_of, idle_seconds}
use s3p_tape_service.Store.Sessions.Laws.{Stored, valid}
use s3p_tape_service.Store.Sessions.Lifetime.{visit, visits_lem}
use s3p_tape_service.Store.Sessions.Race.{validate_during_revoke, validate_during_revoke-Stored}
use s3p_tape_service.Tests.Instances.{std, defaults}
use s3p_tape_service.Tests.Samples.{empty}

-- The session `[]` of user 7, from 10 to 9000; the server forgets it two weeks after 100.
abbrev logged_in : Keyspace
logged_in = record empty {
  strings =
      update (λ _. none) (key_of std [])
        (some (std.dumps (obj (payload std 7 10 9000 20)), 1209700));
}

logged_in-Stored : Stored std logged_in (key_of std []) 7 10 9000 20 1209700
logged_in-Stored = rw (text_eq_refl (key_of std []))

abbrev visits : List (ℕ × ℕ)
visits = (600000, 30) ∷ (600000, 40) ∷ []

visits_lem_example :
    (for_map visits (visit reference std defaults [] 7 10 9000) logged_in).1
    ≡ map (λ v. valid 7 10 9000 v.1) visits
visits_lem_example =
    visits_lem reference std defaults [] 7 10 9000 logged_in 20 1209700 visits logged_in-Stored refl
      ((omega arith, omega arith), ((omega arith, omega arith), tt))

validate_during_revoke-Stored_example :
    Stored std
      (validate_during_revoke reference std defaults 30 [] logged_in).0
      (key_of std [])
      7
      10
      9000
      30
      (100 + idle_seconds defaults)
validate_during_revoke-Stored_example =
    validate_during_revoke-Stored reference std defaults logged_in 30 [] 7 10 9000 20 1209700
      logged_in-Stored (omega arith) (omega arith)
