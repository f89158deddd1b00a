-- ===== src/Tests/Operations.antt =====
-- Operations on a server with the configuration of user 7 and no tape yet.
use s3p_tape_service.Prelude.{ℕ, ◌≡◌, refl, true, Option, none, some, [], ◌∷◌, length, arith}
use s3p_tape_service.Prelude.Text.{Text, codes, str_of, text_eq}
use s3p_tape_service.Errors.{ok}
use s3p_tape_service.Redis.{Keyspace, reference, has_member, update}
use s3p_tape_service.Store.Tape.Entries.{list_entries_page}
use s3p_tape_service.Store.Tape.View.{Tape}
use s3p_tape_service.Store.Tape.Operations.{page}
use s3p_tape_service.Service.Steps.{Steps}
use s3p_tape_service.Service.Operations.{Operation, generate, perform, perform-Steps}
use s3p_tape_service.Service.Ordered.{IsOrderedTape}
use s3p_tape_service.Service.Reachable.{
  Reachable, begins, follows, perform-Reachable, list_entries_page-Reachable,
}
use s3p_tape_service.Service.Untouched.{Untouched, perform-Untouched}
use s3p_tape_service.Tests.Instances.{std, defaults, database}
use s3p_tape_service.Tests.Samples.{configured, settings, configured-config, configured-sources}
use s3p_tape_service.Keys.{lock_key, entries_key}
use s3p_tape_service.Redis.Command
use s3p_tape_service.Database.{any_wanted}
use s3p_tape_service.Db.Candidates.{candidates_for_user}
use s3p_tape_service.Store.Tape.Append.{new_entries}
use s3p_tape_service.Worker.Generator.{generate_for_user}
use s3p_tape_service.Service.Steps.{locks}
use s3p_tape_service.Service.Recovery.{regenerate-Reachable}
use s3p_tape_service.Store.Lock.{acquire, is_locked}
use s3p_tape_service.Service.Turns.{System, Turns, takes, done, more}
use s3p_tape_service.Service.Exclusion.{exclusive}

abbrev chosen : Keyspace
chosen = record configured { zsets = λ _. [] }

abbrev run : Operation database
run = generate [] (codes "w") true

perform-Steps_example :
    Steps true defaults.worker_advisory_lock_ttl_seconds 7 chosen
      (perform std defaults database 50 7 run chosen)
perform-Steps_example = perform-Steps std defaults database 50 7 run chosen

run-Reachable :
    Reachable defaults.worker_advisory_lock_ttl_seconds
      (perform std defaults database 50 7 run chosen)
run-Reachable =
    perform-Reachable std defaults database 50 7 run chosen (begins chosen (λ v. refl) (λ v. refl))

list_entries_page-Reachable_example :
    (t : Tape) × IsOrderedTape t
    × ((after : Option ℕ) (limit : ℕ)
        → list_entries_page reference 7 after limit (perform std defaults database 50 7 run chosen)
          ≡ (perform std defaults database 50 7 run chosen, ok (page t after limit)))
list_entries_page-Reachable_example =
    list_entries_page-Reachable defaults.worker_advisory_lock_ttl_seconds
      (perform std defaults database 50 7 run chosen) run-Reachable 7

perform-Untouched_example : Untouched 8 chosen (perform std defaults database 50 7 run chosen)
perform-Untouched_example =
    perform-Untouched std defaults database 50 7 8 (λ e. omega arith) run chosen

-- A worker that took the lock of user 7 and never came back.
abbrev abandoned : Keyspace
abandoned =
    (Command.set_nx_ex (lock_key 7) (codes "w") defaults.worker_advisory_lock_ttl_seconds chosen).0

abandoned-Reachable : Reachable defaults.worker_advisory_lock_ttl_seconds abandoned
abandoned-Reachable = follows 7 (begins chosen (λ v. refl) (λ v. refl)) (locks refl (codes "w"))

regenerate-Reachable_example :
    let n = defaults.worker_advisory_lock_ttl_seconds in
    let (srv', result) =
      generate_for_user reference std defaults database []
        (codes "x")
        50
        7
        true
        (reference.elapse n abandoned).0 in
    (result ≡ ok (codes "full", length (new_entries [] 0 0 (11 ∷ []))))
    × ((d : ℕ)
        → has_member (str_of d) (srv'.zsets (entries_key 7))
          ≡ any_wanted
              (database.tables []).scores
              7
              (3 ∷ [])
              none
              none
              (database.tables []).documents
              d)
regenerate-Reachable_example =
    regenerate-Reachable database [] 7 3 [] (11 ∷ []) settings reference std defaults (codes "x") 50
      abandoned defaults.worker_advisory_lock_ttl_seconds abandoned-Reachable (omega arith)
      (omega arith) configured-config configured-sources (unfold candidates_for_user in refl)

-- A worker that takes the lock of user 7, and is inside while another one asks for it.
abbrev quiet : System
quiet = record { keyspace = chosen; inside = λ _. none }

abbrev taken : System
taken = record {
  keyspace = (acquire reference defaults (codes "w") 7 chosen).0;
  inside = update (λ _. none) (codes "w") (some chosen.clock);
}

taken-Turns : Turns defaults 7 quiet taken
unfolding acquire
taken-Turns = more done (takes (codes "w") refl refl)

exclusive_example :
    (codes "w" ≡ codes "w") × (is_locked reference 7 taken.keyspace ≡ (taken.keyspace, true))
unfolding acquire text_eq
exclusive_example =
    exclusive defaults 7 quiet taken (λ token. refl) taken-Turns (codes "w") (codes "w")
      chosen.clock chosen.clock refl refl (omega arith) (omega arith)
