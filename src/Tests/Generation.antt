-- ===== src/Tests/Generation.antt =====
-- Runs of the generator at concrete inputs: user 7 of `configured`, whose source has document 11.
use s3p_tape_service.Prelude.{◌≡◌, refl, none, some, [], ◌∷◌, ◌++◌, arith, length, true, false}
use s3p_tape_service.Prelude.Text.{codes, str_of, text_eq_refl}
use s3p_tape_service.Errors.{ok, raise, db_error}
use s3p_tape_service.Keys.{lock_key, channel_for, cfg_key, entries_key}
use s3p_tape_service.Redis.{Keyspace, reference, lookup, has_member}
use s3p_tape_service.Store.Lock.Laws.{holder}
use s3p_tape_service.Store.Tape.View.{Tape, IsTape, Holds}
use s3p_tape_service.Store.Tape.Append.{new_entries}
use s3p_tape_service.Db.Candidates.{candidates_for_user}
use s3p_tape_service.Worker.Generator.{generate_for_user, after_last, skipped}
use s3p_tape_service.Worker.Generator.Outcome.{regenerate_lem, regenerate_failed, top_up_lem}
use s3p_tape_service.Worker.Generator.Granted.{run_frames, error_frames}
use s3p_tape_service.Worker.Generator.Wanted.{regenerate_wanted}
use s3p_tape_service.Worker.Generator.Order.{documents_of, AskedOrder, regenerate-IsOrdered}
use s3p_tape_service.Worker.Generator.Skipped.{generate_taken}
use s3p_tape_service.Redis.Command.{is_some}
use s3p_tape_service.Tests.Instances.{std, defaults, database, broken, document}
use s3p_tape_service.Tests.Samples.{
  locked_server, configured, settings, tape, tape-IsTape, configured-Holds, configured-config,
  configured-sources,
}

found : candidates_for_user database [] 7 (3 ∷ []) none none (codes "desc") [] ≡ ok (11 ∷ [])
found = unfold candidates_for_user in refl

failing : candidates_for_user broken tt 7 (3 ∷ []) none none (codes "desc") [] ≡ raise db_error
failing = unfold candidates_for_user in refl

found_new :
    candidates_for_user database [] 7 (3 ∷ []) none none (codes "desc") (5 ∷ 9 ∷ 2 ∷ [])
    ≡ ok (11 ∷ [])
found_new = unfold candidates_for_user in refl

regenerate_lem_example :
    let (srv', result) =
      generate_for_user reference std defaults database [] [] 50 7 true configured in
    let new = new_entries [] 0 0 (11 ∷ []) in
    (result ≡ ok (codes "full", length new))
    × Holds srv' 7 new
    × IsTape new
    × (lookup (codes "dirty") (srv'.hashes (cfg_key 7)) ≡ some (codes "0"))
    × (holder srv' 7 ≡ none)
    × (srv'.channels (channel_for 7)
        ≡ configured.channels (channel_for 7)
          ++ run_frames reference std defaults database [] [] 50 7 configured true
              (length (configured.zsets (entries_key 7)))
              new)
regenerate_lem_example =
    regenerate_lem reference std defaults database [] [] 50 7 configured settings 3 []
      configured-config configured-sources refl (omega arith) (11 ∷ []) found

regenerate_failed_example :
    let (srv', result) =
      generate_for_user reference std defaults broken tt [] 50 7 true configured in
    (result ≡ raise db_error)
    × Holds srv' 7 []
    × (srv'.hashes (cfg_key 7) ≡ configured.hashes (cfg_key 7))
    × (holder srv' 7 ≡ none)
    × (srv'.channels (channel_for 7)
        ≡ configured.channels (channel_for 7)
          ++ error_frames reference std defaults broken tt [] 50 7 configured true
              (length (configured.zsets (entries_key 7))))
regenerate_failed_example =
    regenerate_failed reference std defaults broken tt [] 50 7 configured settings 3 []
      configured-config configured-sources refl (omega arith) db_error failing

top_up_lem_example :
    let (srv', result) =
      generate_for_user reference std defaults database [] [] 50 7 false configured in
    let new = new_entries tape 5 0 (11 ∷ []) in
    (result ≡ ok (codes "incremental", length new))
    × Holds srv' 7 (tape ++ new)
    × IsTape (tape ++ new)
    × (srv'.hashes (cfg_key 7) ≡ configured.hashes (cfg_key 7))
    × (holder srv' 7 ≡ none)
    × (srv'.channels (channel_for 7)
        ≡ configured.channels (channel_for 7)
          ++ run_frames reference std defaults database [] [] 50 7 configured false 0 new)
unfolding after_last
top_up_lem_example =
    top_up_lem reference std defaults database [] [] 50 7 configured settings 3 [] configured-config
      configured-sources refl (omega arith) tape (11 ∷ []) configured-Holds tape-IsTape found_new

-- Document 11 is in source 3 and not scored.
regenerate_wanted_example :
    has_member (str_of 11) (
      (generate_for_user reference std defaults database [] [] 50 7 true configured).0.zsets
        (entries_key 7))
    ≡ true
regenerate_wanted_example =
    regenerate_wanted database [] 7 3 [] (11 ∷ []) settings reference std defaults [] 50 configured
      configured-config configured-sources refl (omega arith) found 11

-- The lock of the configured user is held.
abbrev busy : Keyspace
busy = record configured { strings = locked_server.strings }

busy-held : is_some (holder busy 7) ≡ true
busy-held = rw (text_eq_refl (lock_key 7))

generate_taken_example :
    let (srv', result) = generate_for_user reference std defaults database [] [] 50 7 true busy in
    (srv' ≡ busy) × (result ≡ ok skipped)
generate_taken_example =
    generate_taken reference std defaults database [] [] 50 7 true busy settings 3 []
      configured-config configured-sources busy-held

regenerate-IsOrdered_example :
    (t : Tape) × Holds
      (generate_for_user reference std defaults database [] [] 50 7 true configured).0
      7
      t
    × IsTape t
    × AskedOrder (codes "desc") (document ∷ []) (documents_of t)
regenerate-IsOrdered_example =
    regenerate-IsOrdered database [] 7 3 [] (11 ∷ []) settings reference std defaults [] 50
      configured configured-config configured-sources refl (omega arith) found
