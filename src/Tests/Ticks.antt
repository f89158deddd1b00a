-- ===== src/Tests/Ticks.antt =====
-- A tick that finds the dirty configuration of user 7 between those of two other users.
use s3p_tape_service.Prelude.{ℕ, ◌≡◌, refl, true, none, some, List, [], ◌∷◌, map, arith}
use s3p_tape_service.Prelude.Text.{codes, str_of, text_eq, text_eq_refl}
use s3p_tape_service.Errors.{ok}
use s3p_tape_service.Keys.{cfg_key, entries_key}
use s3p_tape_service.Redis.{Keyspace, Fields, reference, update, has_member, lookup}
use s3p_tape_service.Db.Candidates.{candidates_for_user}
use s3p_tape_service.Store.Tape.Config.{TapeConfig, config_of, is_one}
use s3p_tape_service.Store.Tape.Users.{config, sources, key_for}
use s3p_tape_service.Worker.Tick.{Moment, tick}
use s3p_tape_service.Worker.Tick.Fair.{tick_lem}
use s3p_tape_service.Tests.Instances.{std, defaults, database}
use s3p_tape_service.Tests.Samples.{configured, configured-sources, settings}
use s3p_tape_service.Database.{any_wanted}
use s3p_tape_service.Api.Config.{write_config}
use s3p_tape_service.Worker.Tick.Configured.{tick-write_config}
use s3p_tape_service.Tests.Configs.{wish, sources_labelled, wish-admits, permitted}

abbrev fields : Fields
fields =
    (codes "page_size", codes "20")
    ∷ (codes "ordering", codes "desc")
    ∷ (codes "dirty", codes "1")
    ∷ []

abbrev dirty_server : Keyspace
dirty_server = record configured { hashes = update (λ _. []) (cfg_key 7) fields }

abbrev dirty_settings : TapeConfig
dirty_settings = record settings { dirty = true }

read_fields : config_of std 7 fields ≡ ok (some dirty_settings)
read_fields = unfold config_of in unfold text_eq in refl

dirty_server-config : config_of std 7 (dirty_server.hashes (cfg_key 7)) ≡ ok (some dirty_settings)
dirty_server-config = rw (text_eq_refl (cfg_key 7), read_fields)

fields-dirty : is_one (lookup (codes "dirty") fields) ≡ true
fields-dirty = unfold is_one in unfold text_eq in unfold lookup in refl

dirty_server-dirty : is_one (lookup (codes "dirty") (dirty_server.hashes (cfg_key 7))) ≡ true
dirty_server-dirty = rw (text_eq_refl (cfg_key 7), fields-dirty)

found : candidates_for_user database [] 7 (3 ∷ []) none none (codes "desc") [] ≡ ok (11 ∷ [])
found = unfold candidates_for_user in refl

abbrev moment : ℕ → Moment database
moment u = record { db = []; token = codes "w"; now = 50 }

tick_lem_example :
    has_member (str_of 11) (
      (tick reference std defaults database moment
          (map key_for ((config, 6) ∷ (sources, 6) ∷ (config, 7) ∷ (config, 8) ∷ []))
          dirty_server).0.zsets
        (entries_key 7))
    ≡ true
tick_lem_example =
    tick_lem std defaults database moment 7 dirty_settings 3 [] (11 ∷ [])
      ((config, 6) ∷ (sources, 6) ∷ []) ((config, 8) ∷ []) dirty_server (λ e. omega arith, tt)
      (λ e. omega arith, tt) dirty_server-config dirty_server-dirty configured-sources refl
      (omega arith) found 11

answered :
    (ids : List ℕ)
    → (out : List ℕ) × (candidates_for_user database [] 7 ids (some 30) none (codes "asc") []
        ≡ ok out)
unfolding candidates_for_user
answered [] = ([], refl)
answered (i ∷ ids) = (_, refl)

-- User 7 asks for the source 3 again, with other dates.
tick-write_config_example :
    has_member (str_of 11) (
      (tick reference std defaults database moment
          (map key_for ((config, 6) ∷ (sources, 6) ∷ (config, 7) ∷ (config, 8) ∷ []))
          (write_config reference std database [] 50 7 wish configured).0).0.zsets
        (entries_key 7))
    ≡ any_wanted
        (database.tables []).scores
        7
        (3 ∷ 3 ∷ [])
        (some 30)
        none
        (database.tables []).documents
        11
tick-write_config_example =
    tick-write_config std defaults database 50 7 wish moment [] (3 ∷ [])
      (record { id = 3; name = none } ∷ []) 3 ((config, 6) ∷ (sources, 6) ∷ []) ((config, 8) ∷ [])
      configured sources_labelled wish-admits permitted refl refl (omega arith) answered
      (λ e. omega arith, tt) (λ e. omega arith, tt) 11
