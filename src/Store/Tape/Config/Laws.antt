-- ===== src/Store/Tape/Config/Laws.antt =====
-- The operations on a configuration do to a server's keyspace what they do to the keyspace itself.
use s3p_tape_service.Prelude.{ℕ, Option, List, [], ◌∷◌, map}
use s3p_tape_service.Prelude.Text.{Text, codes, str_of}
use s3p_tape_service.Action.{Implements}
use s3p_tape_service.Action
use s3p_tape_service.Keys.{cfg_key, cfg_sources_key}
use s3p_tape_service.Redis.{Redis, reference}
use s3p_tape_service.Stdlib.{Stdlib}
use s3p_tape_service.Store.Tape.Config.{
  config_of, config_mapping, sorted_ids, get_config, upsert_config, mark_dirty, clear_dirty,
  get_config_sources, add_sources, set_config_sources,
}
use s3p_tape_service.Store.Tape.Config.Replies.{config_of-SameFields, sorted_ids-Permᴰ}

module _ (r : Redis) (u : ℕ) where
  open r use {view, hgetall_law, hset_law, smembers_law, sadd_law, delete_law}

  pub get_config-Implements :
      (lib : Stdlib) → Implements view (get_config r lib u) (get_config reference lib u)
  unfolding get_config
  get_config-Implements lib =
      Action.Implements-Delivers view (config_of lib u) (hgetall_law (cfg_key u))
        (config_of-SameFields lib u)

  pub upsert_config-Implements :
      (lib : Stdlib) (now : ℕ) (ordering display_mode : Text) (page_size : ℕ)
      (date_from date_to : Option ℕ)
      → Implements view
          (upsert_config r lib now u ordering display_mode page_size date_from date_to)
          (upsert_config reference lib now u ordering display_mode page_size date_from date_to)
  unfolding upsert_config
  upsert_config-Implements lib now ordering display_mode page_size date_from date_to =
      hset_law (cfg_key u)
        (config_mapping lib now ordering display_mode page_size date_from date_to)

  pub mark_dirty-Implements : Implements view (mark_dirty r u) (mark_dirty reference u)
  unfolding mark_dirty
  mark_dirty-Implements = hset_law (cfg_key u) _

  pub clear_dirty-Implements : Implements view (clear_dirty r u) (clear_dirty reference u)
  unfolding clear_dirty
  clear_dirty-Implements = hset_law (cfg_key u) _

  pub get_config_sources-Implements :
      Implements view (get_config_sources r u) (get_config_sources reference u)
  unfolding get_config_sources
  get_config_sources-Implements =
      Action.Implements-Delivers view sorted_ids (smembers_law (cfg_sources_key u)) sorted_ids-Permᴰ

  add_sources-Implements :
      (ids : List ℕ) → Implements view (add_sources r u ids) (add_sources reference u ids)
  unfolding add_sources
  add_sources-Implements [] = Action.Implements-pure view tt
  add_sources-Implements (i ∷ ids) = sadd_law (cfg_sources_key u) (map str_of (i ∷ ids))

  pub set_config_sources-Implements :
      (ids : List ℕ)
      → Implements view (set_config_sources r u ids) (set_config_sources reference u ids)
  unfolding set_config_sources
  set_config_sources-Implements ids =
      Action.Implements-bind view (delete_law (cfg_sources_key u)) λ _.
        Action.Implements-bind view (add_sources-Implements ids)
          λ _. hset_law (cfg_key u) ((codes "dirty", codes "1") ∷ [])
