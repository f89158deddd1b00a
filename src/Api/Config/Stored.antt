-- ===== src/Api/Config/Stored.antt =====
-- What Redis holds after `write_config` of src/tape_service/api/config.py has written.
use s3p_tape_service.Prelude.{ℕ, ◌≡◌, ◌≢◌, refl, ap, ◌∙◌, true, false, some, List, [], ◌∷◌}
use s3p_tape_service.Prelude.Text.{codes, text_eq, text_eq_refl, text_eq_ne}
use s3p_tape_service.Prelude.Text.RoundTrip.{int_of-str_of}
use s3p_tape_service.Errors.{ok}
use s3p_tape_service.Keys.{cfg_key, cfg_sources_key, cfg_key-ne-cfg_sources_key}
use s3p_tape_service.Redis.{Keyspace, Fields, reference, merge}
use s3p_tape_service.Stdlib.{Stdlib}
use s3p_tape_service.Store.Tape.Config.{
  TapeConfig, get_or, is_one, config_mapping, read_config, upsert_config, set_config_sources,
  config_of,
}
use s3p_tape_service.Store.Tape.Entries.{int_or_raise}
use s3p_tape_service.Store.Tape.RoundTrip.{
  lookup-insert, insert-ne-nil, iso_or_none-iso_or_empty, config_of-read,
}
use s3p_tape_service.Api.Config.{ConfigUpdate}

-- The configuration that an update stands for.
abbrev pub config_for : ℕ → ConfigUpdate → TapeConfig
config_for u p = record {
  user_id = u;
  ordering = p.ordering;
  display_mode = p.display_mode;
  page_size = p.page_size;
  date_from = p.date_from;
  date_to = p.date_to;
  dirty = true;
}

module _ (lib : Stdlib) (now u : ℕ) (p : ConfigUpdate) where
  abbrev pub hash_after : Fields → Fields
  unfolding merge
  hash_after m =
      merge
        (merge m
          (config_mapping lib now p.ordering p.display_mode p.page_size p.date_from p.date_to))
        ((codes "dirty", codes "1") ∷ [])

  read_config-hash_after : (m : Fields) → read_config lib u (hash_after m) ≡ ok (config_for u p)
  unfolding read_config get_or is_one int_or_raise merge config_mapping text_eq
  read_config-hash_after m = simp (
    get_or,
    int_or_raise,
    text_eq,
    is_one,
    lookup-insert,
    int_of-str_of,
    iso_or_none-iso_or_empty lib,
  )

  hash_after-ne-nil : (m : Fields) → hash_after m ≢ []
  unfolding merge config_mapping
  hash_after-ne-nil m = insert-ne-nil _ _ _

  -- The server after the two writes.
  abbrev pub stored : Keyspace → Keyspace
  stored s =
      (set_config_sources reference u p.selected_source_ids
        (upsert_config reference lib now u p.ordering p.display_mode p.page_size p.date_from
          p.date_to s).0).0

  stored-hash : (s : Keyspace) → (stored s).hashes (cfg_key u) ≡ hash_after (s.hashes (cfg_key u))
  unfolding set_config_sources upsert_config merge hash_after
  stored-hash s = by_sources p.selected_source_ids
    where
      apart : text_eq (cfg_key u) (cfg_sources_key u) ≡ false
      apart = text_eq_ne _ _ (cfg_key-ne-cfg_sources_key u u)

      by_sources :
          (ids : List ℕ)
          → ((set_config_sources reference u ids
              (upsert_config reference lib now u p.ordering p.display_mode p.page_size p.date_from
                p.date_to s).0).0
            ).hashes
              (cfg_key u)
            ≡ hash_after (s.hashes (cfg_key u))
      by_sources [] = rw (text_eq_refl (cfg_key u), apart)
      by_sources (i ∷ ids) = rw (text_eq_refl (cfg_key u), apart)

  pub stored-config :
      (s : Keyspace) → config_of lib u ((stored s).hashes (cfg_key u)) ≡ ok (some (config_for u p))
  stored-config s =
      ap (config_of lib u) (stored-hash s)
      ∙ config_of-read lib now u p.ordering p.display_mode p.page_size p.date_from p.date_to _ _
          (read_config-hash_after (s.hashes (cfg_key u))) (hash_after-ne-nil (s.hashes (cfg_key u)))

pub set_config_sources-channels :
    (u : ℕ) (ids : List ℕ) (s : Keyspace)
    → (set_config_sources reference u ids s).0.channels ≡ s.channels
unfolding set_config_sources
set_config_sources-channels u [] s = refl
set_config_sources-channels u (i ∷ ids) s = refl
