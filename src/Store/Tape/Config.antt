-- ===== src/Store/Tape/Config.antt =====
-- A user's configuration: the hash `tape:cfg:<user>` and the set of its sources, in
-- src/tape_service/store/tape.py. A datetime is a number of microseconds.
pub mod Laws
pub mod Replies
use s3p_tape_service.Prelude.{ℕ, Bool, false, Option, none, some, List, [], ◌∷◌, map}
use s3p_tape_service.Prelude.Dict.{insert_sorted}
use s3p_tape_service.Prelude.Text.{Text, codes, text_eq, str_of}
use s3p_tape_service.Action.{Action, pure, ◌>>=◌, ◌>>◌}
use s3p_tape_service.Errors.{Result, ok, raise, value_error}
use s3p_tape_service.Keys.{cfg_key, cfg_sources_key}
use s3p_tape_service.Redis.{Redis, Fields, lookup}
use s3p_tape_service.Stdlib.{Stdlib}
use s3p_tape_service.Store.Tape.Entries.{int_or_raise}

-- `user_id`, `ordering`, ...: the texts are what the hash holds, `asc` or `desc` and `compact` or
-- `detailed` as the schema of the request admits them.
pub record TapeConfig : Type 0 where
  pub user_id : ℕ
  pub ordering : Text
  pub display_mode : Text
  pub page_size : ℕ
  pub date_from : Option ℕ
  pub date_to : Option ℕ
  pub dirty : Bool

-- `raw.get(field, default)`
unfoldable pub get_or : Fields → Text → Text → Text
unfolding lookup
get_or raw field default = elim (lookup field raw) [ none ↦ default | some v ↦ v ]

-- `value == "1"`
unfoldable pub is_one : Option Text → Bool
unfolding text_eq
is_one none = false
is_one (some v) = text_eq v (codes "1")

abbrev pub bind_result : {A B : Type 0} → Result A → (A → Result B) → Result B
bind_result (ok a) f = f a
bind_result (raise e) f = raise e

abbrev pub add_id : Result ℕ → Result (List ℕ) → Result (List ℕ)
add_id (raise e) rest = raise e
add_id (ok a) (raise e) = raise e
add_id (ok a) (ok as_) = ok (insert_sorted a as_)

-- `sorted(int(m) for m in members)`
unfoldable pub sorted_ids : List Text → Result (List ℕ)
unfolding insert_sorted int_or_raise
sorted_ids [] = ok []
sorted_ids (m ∷ ms) = add_id (int_or_raise m) (sorted_ids ms)

module _ (lib : Stdlib) where
  -- `None` and the empty text give `None`; a text that is no date raises `ValueError`.
  unfoldable pub iso_or_none : Option Text → Result (Option ℕ)
  iso_or_none none = ok none
  iso_or_none (some []) = ok none
  iso_or_none (some (c ∷ s)) = elim (lib.fromisoformat (c ∷ s)) [
    | none ↦ raise value_error
    | some t ↦ ok (some t)
  ]

  -- `t.isoformat() if t else ""`
  unfoldable pub iso_or_empty : Option ℕ → Text
  iso_or_empty none = []
  iso_or_empty (some t) = lib.isoformat t

  -- The `TapeConfig(...)` that `get_config` builds from the hash.
  unfoldable pub read_config : ℕ → Fields → Result TapeConfig
  unfolding get_or is_one iso_or_none int_or_raise lookup
  read_config user_id raw =
      bind_result (int_or_raise (get_or raw (codes "page_size") (codes "20"))) λ page_size.
        bind_result (iso_or_none (lookup (codes "date_from") raw)) λ date_from.
          bind_result (iso_or_none (lookup (codes "date_to") raw)) λ date_to. ok (record {
            user_id = user_id;
            ordering = get_or raw (codes "ordering") (codes "desc");
            display_mode = get_or raw (codes "display_mode") (codes "compact");
            page_size = page_size;
            date_from = date_from;
            date_to = date_to;
            dirty = is_one (lookup (codes "dirty") raw);
          })

  -- `none` for the empty hash, which Redis returns for a missing key.
  unfoldable pub config_of : ℕ → Fields → Result (Option TapeConfig)
  unfolding read_config
  config_of user_id [] = ok none
  config_of user_id (f ∷ raw) = bind_result (read_config user_id (f ∷ raw)) λ cfg. ok (some cfg)

  -- The mapping that `upsert_config` writes; `now` is `datetime.now(UTC)`.
  unfoldable pub config_mapping : ℕ → Text → Text → ℕ → Option ℕ → Option ℕ → Fields
  unfolding iso_or_empty
  config_mapping now ordering display_mode page_size date_from date_to =
      (codes "ordering", ordering)
      ∷ (codes "display_mode", display_mode)
      ∷ (codes "page_size", str_of page_size)
      ∷ (codes "date_from", iso_or_empty date_from)
      ∷ (codes "date_to", iso_or_empty date_to)
      ∷ (codes "dirty", codes "1")
      ∷ (codes "updated_at", lib.isoformat now)
      ∷ []

module _ (r : Redis) where
  open r use {Server, hgetall, hset, smembers, sadd, delete}

  unfoldable pub get_config : Stdlib → ℕ → Action Server (Result (Option TapeConfig))
  unfolding config_of
  get_config lib user_id = do raw ← hgetall (cfg_key user_id); pure (config_of lib user_id raw)

  unfoldable pub upsert_config :
      Stdlib → ℕ → ℕ → Text → Text → ℕ → Option ℕ → Option ℕ → Action Server Unit
  unfolding config_mapping
  upsert_config lib now user_id ordering display_mode page_size date_from date_to =
      hset (cfg_key user_id)
        (config_mapping lib now ordering display_mode page_size date_from date_to)

  unfoldable pub mark_dirty : ℕ → Action Server Unit
  mark_dirty user_id = hset (cfg_key user_id) ((codes "dirty", codes "1") ∷ [])

  unfoldable pub clear_dirty : ℕ → Action Server Unit
  clear_dirty user_id = hset (cfg_key user_id) ((codes "dirty", codes "0") ∷ [])

  unfoldable pub get_config_sources : ℕ → Action Server (Result (List ℕ))
  unfolding sorted_ids
  get_config_sources user_id = do
    members ← smembers (cfg_sources_key user_id)
    pure (sorted_ids members)

  -- `if source_ids: pipe.sadd(...)`
  unfoldable pub add_sources : ℕ → List ℕ → Action Server Unit
  add_sources user_id [] = pure tt
  add_sources user_id (s ∷ ids) = sadd (cfg_sources_key user_id) (map str_of (s ∷ ids))

  -- The commands of the pipeline; MULTI and EXEC let nothing come between them.
  unfoldable pub set_config_sources : ℕ → List ℕ → Action Server Unit
  unfolding add_sources
  set_config_sources user_id source_ids = do
    delete (cfg_sources_key user_id)
    add_sources user_id source_ids
    hset (cfg_key user_id) ((codes "dirty", codes "1") ∷ [])
