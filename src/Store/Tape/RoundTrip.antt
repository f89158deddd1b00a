-- ===== src/Store/Tape/RoundTrip.antt =====
-- What `upsert_config` writes, `get_config` reads.
use s3p_tape_service.Prelude.{
  ℕ, ◌≡◌, ◌≢◌, refl, ap, ◌∙◌, true, Option, none, some, [], ◌∷◌, Bool-cases, inl, inr, arith,
  if◌then◌else◌,
}
use s3p_tape_service.Prelude.Text.{Text, text_eq, text_eq_refl, text_eq_ne, text_eq_iff}
use s3p_tape_service.Prelude.Text.RoundTrip.{int_of-str_of}
use s3p_tape_service.Errors.{ok}
use s3p_tape_service.Keys.{cfg_key}
use s3p_tape_service.Redis.{Redis, Keyspace, Fields, lookup, insert, merge}
use s3p_tape_service.Stdlib.{Stdlib}
use s3p_tape_service.Store.Tape.Entries.{int_or_raise}
use s3p_tape_service.Store.Tape.Config.{
  TapeConfig, get_or, iso_or_none, iso_or_empty, is_one, read_config, config_of, config_mapping,
  get_config, upsert_config,
}
use s3p_tape_service.Store.Tape.Config.Laws.{get_config-Implements}

pub lookup-insert :
    (k j v : Text) (m : Fields)
    → lookup k (insert j v m) ≡ (if text_eq k j then some v else lookup k m)
unfolding lookup insert
lookup-insert k j v [] = refl
lookup-insert k j v ((i, w) ∷ m) = elim (Bool-cases (text_eq j i)) [
  | inl same ↦ rw (same, (text_eq_iff j i).0 same) (ground arith)
  | inr other ↦ rw other (elim (Bool-cases (text_eq k i)) [
    | inl here ↦ ground (arith, text_eq_iff k i, text_eq_iff k j, text_eq_ne j i)
    | inr away ↦ rw away (lookup-insert k j v m)
  ])
]

pub insert-ne-nil : (k v : Text) (m : Fields) → insert k v m ≢ []
unfolding insert
insert-ne-nil k v [] e = cc
insert-ne-nil k v ((j, w) ∷ m) e = elim (Bool-cases (text_eq k j)) [
  | inl same ↦ ground arith
  | inr other ↦ ground arith
]

module _ (lib : Stdlib) where
  iso_or_none-text :
      (s : Text) (t : ℕ)
      → s ≢ []
      → lib.fromisoformat s ≡ some t
      → iso_or_none lib (some s) ≡ ok (some t)
  unfolding iso_or_none
  iso_or_none-text [] t nonempty read = absurd (nonempty refl)
  iso_or_none-text (c ∷ s) t nonempty read = rw (iso_or_none, read)

  pub iso_or_none-iso_or_empty : (t : Option ℕ) → iso_or_none lib (some (iso_or_empty lib t)) ≡ ok t
  unfolding iso_or_empty iso_or_none
  iso_or_none-iso_or_empty none = refl
  iso_or_none-iso_or_empty (some t) =
      iso_or_none-text (lib.isoformat t) t (lib.isoformat-ne-nil t) (lib.fromisoformat-isoformat t)

module _ (lib : Stdlib) (now user : ℕ) (ordering display_mode : Text) (page_size : ℕ)
    (date_from date_to : Option ℕ) where
  read_config-merge :
      (m : Fields)
      → read_config lib user
          (merge m (config_mapping lib now ordering display_mode page_size date_from date_to))
        ≡ ok (record {
          user_id = user;
          ordering = ordering;
          display_mode = display_mode;
          page_size = page_size;
          date_from = date_from;
          date_to = date_to;
          dirty = true;
        })
  unfolding read_config get_or is_one int_or_raise merge config_mapping text_eq
  read_config-merge m = simp (
    get_or,
    int_or_raise,
    text_eq,
    is_one,
    lookup-insert,
    int_of-str_of,
    iso_or_none-iso_or_empty lib,
  )

  pub config_of-read :
      (raw : Fields)
      → (cfg : TapeConfig) → read_config lib user raw ≡ ok cfg
      → raw ≢ []
      → config_of lib user raw ≡ ok (some cfg)
  unfolding config_of
  config_of-read [] cfg read nonempty = absurd (nonempty refl)
  config_of-read (f ∷ raw) cfg read nonempty = rw read

  merge-ne-nil :
      (m : Fields)
      → merge m (config_mapping lib now ordering display_mode page_size date_from date_to) ≢ []
  unfolding merge config_mapping
  merge-ne-nil m = insert-ne-nil _ _ _

module _ (r : Redis) (lib : Stdlib) where
  open r use {Server, view, hset_law}

  -- After a configuration is written, reading it gives back every value that was written, and the
  -- dirty flag is set, whatever the hash held before.
  get_config-upsert_config :
      (srv : Server) (now user : ℕ) (ordering display_mode : Text) (page_size : ℕ)
      (date_from date_to : Option ℕ)
      → (get_config r lib user
          (upsert_config r lib now user ordering display_mode page_size date_from date_to srv).0).1
        ≡ ok (
            some (record {
              user_id = user;
              ordering = ordering;
              display_mode = display_mode;
              page_size = page_size;
              date_from = date_from;
              date_to = date_to;
              dirty = true;
            }))
  unfolding get_config upsert_config
  get_config-upsert_config srv now user ordering display_mode page_size date_from date_to =
      (get_config-Implements r user lib).result _
      ∙ ap (config_of lib user)
          {y = merge ((view srv).hashes (cfg_key user))
            (config_mapping lib now ordering display_mode page_size date_from date_to)}
          (ap (λ (k : Keyspace). k.hashes (cfg_key user)) ((hset_law (cfg_key user) _).state srv)
            ∙ rw (text_eq_refl (cfg_key user)))
      ∙ config_of-read lib now user ordering display_mode page_size date_from date_to _ _
          (read_config-merge lib now user ordering display_mode page_size date_from date_to
            ((view srv).hashes (cfg_key user)))
          (merge-ne-nil lib now user ordering display_mode page_size date_from date_to
            ((view srv).hashes (cfg_key user)))
