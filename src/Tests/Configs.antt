-- ===== src/Tests/Configs.antt =====
-- A configuration that is written over another one.
use s3p_tape_service.Prelude.{
  ℕ, ◌≡◌, refl, some, none, true, ◌&&◌, not, List, [], ◌∷◌, ◌++◌, contains, arith, Permᴰ,
}
use mathlib.Core.List.{reverse}
use mathlib.Core.List.Permᴰ
use mathlib.Core.Quot.{sound}
use s3p_tape_service.Prelude.Dict.{put_all, sorted}
use s3p_tape_service.Prelude.Sets.{IsAscending}
use s3p_tape_service.Prelude.Text.{codes, text_eq, str_of}
use s3p_tape_service.Errors.{ok}
use s3p_tape_service.Keys.{cfg_key, cfg_sources_key, channel_for}
use s3p_tape_service.Redis.{Redis, Keyspace, reference, update}
use s3p_tape_service.Store.Events.{make_schedule_queued}
use s3p_tape_service.Store.Tape.Config.{
  get_config_sources, set_config_sources, config_of, sorted_ids,
}
use s3p_tape_service.Store.Tape.Sources.{
  get_config_sources-set_config_sources, get_config_sources_lem,
}
use s3p_tape_service.Api.Roles.{name_of}
use s3p_tape_service.Api.Config.{
  ConfigUpdate, admits, source_refs, name_sources, hydrate_sources, write_config,
}
use s3p_tape_service.Api.Config.Stored.{config_for}
use s3p_tape_service.Api.Config.Written.{
  response_for, write_config_lem, write_config_refused, refusal_text,
}
use s3p_tape_service.Errors.Answer.{IsAnswered}
use s3p_tape_service.Tests.Instances.{std, database}
use s3p_tape_service.Tests.Samples.{configured}

get_config_sources-set_config_sources_example :
    (out : List ℕ) × ((get_config_sources reference 7
        (set_config_sources reference 7 (5 ∷ 3 ∷ 5 ∷ []) configured).0).1
      ≡ ok out)
    × IsAscending out
    × ((d : ℕ) → contains out d ≡ contains (5 ∷ 3 ∷ 5 ∷ []) d)
get_config_sources-set_config_sources_example =
    get_config_sources-set_config_sources reference configured 7 (5 ∷ 3 ∷ 5 ∷ [])

-- A server that sends the members of a set last first.
abbrev backwards : Redis
backwards = record reference {
  smembers = λ k s. (s, reverse (s.sets k));
  smembers_law = λ k. record { state = λ s. refl; result = λ s. Permᴰ.reverse (s.sets k) };
}

abbrev chosen : Keyspace
chosen = record configured {
  sets = update configured.sets (cfg_sources_key 7) (codes "5" ∷ codes "3" ∷ codes "8" ∷ []);
}

get_config_sources_lem_example :
    ((get_config_sources backwards 7 chosen).1 ≡ ok (sorted (3 ∷ 5 ∷ 8 ∷ [])))
    × ((get_config_sources backwards 7 chosen).0 ≡ chosen)
unfolding text_eq cfg_sources_key str_of
get_config_sources_lem_example =
    get_config_sources_lem backwards chosen 7 (3 ∷ 5 ∷ 8 ∷ [])
      (sound {a = codes "5" ∷ codes "3" ∷ codes "8" ∷ []} (Permᴰ.swap refl refl))

-- An update that asks for the source 3, which the user may see.
abbrev pub wish : ConfigUpdate
wish = record {
  ordering = codes "asc";
  display_mode = codes "detailed";
  page_size = 5;
  date_from = some 30;
  date_to = none;
  selected_source_ids = 3 ∷ 3 ∷ [];
}

pub wish-admits : admits wish ≡ true
wish-admits = unfold admits in refl

pub sources_labelled :
    hydrate_sources database [] 7 ≡ ok (3 ∷ [], record { id = 3; name = none } ∷ [])
sources_labelled =
    unfold hydrate_sources in
    unfold name_sources in unfold source_refs in unfold name_of in unfold put_all in refl

pub permitted : (d : ℕ) → contains (3 ∷ 3 ∷ []) d ≡ true → contains (3 ∷ []) d ≡ true
permitted d h = ground arith

write_config_lem_example :
    let (srv', result) = write_config reference std database [] 50 7 wish configured in
    (out : List ℕ) × (result ≡ ok (response_for wish out (record { id = 3; name = none } ∷ [])))
    × IsAscending out
    × ((d : ℕ) → contains out d ≡ contains (3 ∷ 3 ∷ []) d)
    × (config_of std 7 (srv'.hashes (cfg_key 7)) ≡ ok (some (config_for 7 wish)))
    × (sorted_ids (srv'.sets (cfg_sources_key 7)) ≡ ok out)
    × (srv'.channels (channel_for 7)
        ≡ configured.channels (channel_for 7)
          ++ std.dumps (make_schedule_queued std 50 7 (codes "config_dirty")) ∷ [])
write_config_lem_example =
    write_config_lem database [] 7 std 50 wish reference configured (3 ∷ [])
      (record { id = 3; name = none } ∷ []) sources_labelled wish-admits permitted

-- An update that asks for the source 4 as well.
abbrev greedy : ConfigUpdate
greedy = record wish { selected_source_ids = 4 ∷ 3 ∷ [] }

write_config_refused_example :
    let (srv', result) = write_config reference std database [] 50 7 greedy configured in
    (bad : List ℕ) × (IsAnswered result 403 (codes "FORBIDDEN") (refusal_text bad))
    × IsAscending bad
    × ((i : ℕ) → contains bad i ≡ (contains (4 ∷ 3 ∷ []) i && not (contains (3 ∷ []) i)))
    × (srv' ≡ configured)
write_config_refused_example =
    write_config_refused database [] 7 std 50 greedy reference configured (3 ∷ [])
      (record { id = 3; name = none } ∷ []) 4 sources_labelled refl refl
