-- ===== src/Tests/Overtaken.antt =====
-- User 7 writes a new configuration while a full run is under way.
use s3p_tape_service.Prelude.{◌≡◌, refl, none, some, [], ◌∷◌, true, length}
use s3p_tape_service.Prelude.Text.{codes, text_eq_ne}
use s3p_tape_service.Errors.{ok}
use s3p_tape_service.Keys.{cfg_key, entries_key-ne-cfg_sources_key}
use s3p_tape_service.Redis.{Keyspace, reference}
use s3p_tape_service.Db.Candidates.{candidates_for_user}
use s3p_tape_service.Store.Tape.Config.{config_of, set_config_sources, upsert_config}
use s3p_tape_service.Store.Tape.View.{Holds}
use s3p_tape_service.Store.Tape.Append.{new_entries}
use s3p_tape_service.Api.Config.{ConfigUpdate}
use s3p_tape_service.Api.Config.Stored.{config_for, stored, stored-config}
use s3p_tape_service.Worker.Generator.{fill}
use s3p_tape_service.Worker.Generator.Overtaken.{fill_overtaken, settled}
use s3p_tape_service.Tests.Instances.{std, defaults, database}
use s3p_tape_service.Tests.Samples.{configured, settings}

abbrev ascending : ConfigUpdate
ascending = record {
  ordering = codes "asc";
  display_mode = codes "detailed";
  page_size = 5;
  date_from = some 30;
  date_to = none;
  selected_source_ids = 4 ∷ [];
}

-- The run has emptied the tape, and the request comes.
abbrev between : Keyspace
between = stored std 50 7 ascending (record configured { zsets = λ _. [] })

between-Holds : Holds between 7 []
unfolding set_config_sources upsert_config
between-Holds = rw (text_eq_ne _ _ (entries_key-ne-cfg_sources_key 7 7))

fill_overtaken_example :
    let (s', result) =
      fill reference std defaults database []
        (codes "w")
        50
        7
        true
        settings
        (3 ∷ [])
        1
        (3, 0, [])
        between in
    (result ≡ ok (codes "full", length (new_entries [] 0 0 (11 ∷ []))))
    × Holds s' 7 (new_entries [] 0 0 (11 ∷ []))
    × (config_of std 7 (s'.hashes (cfg_key 7)) ≡ ok (some (settled (config_for 7 ascending))))
fill_overtaken_example =
    fill_overtaken std 7 defaults database [] (codes "w") 50 between (config_for 7 ascending)
      settings (3 ∷ []) (11 ∷ []) 1 3
      (stored-config std 50 7 ascending (record configured { zsets = λ _. [] })) between-Holds
      (unfold candidates_for_user in refl)
