-- ===== src/Tests/Samples.antt =====
-- Servers to try the theorems on.
use s3p_tape_service.Prelude.{◌≡◌, refl, false, none, some, [], ◌∷◌, arith}
use s3p_tape_service.Prelude.Text.{codes, text_eq_refl}
use s3p_tape_service.Redis.{Keyspace, Fields, update}
use s3p_tape_service.Keys.{lock_key, entries_key, cfg_key, cfg_sources_key}
use s3p_tape_service.Store.Lock.Laws.{holder}
use s3p_tape_service.Store.Tape.Config.{TapeConfig, config_of, sorted_ids}
use s3p_tape_service.Store.Tape.View.{Tape, rows, Holds, IsTape}
use s3p_tape_service.Tests.Instances.{std}
use s3p_tape_service.Errors.{ok}

-- Nothing is stored.
abbrev pub empty : Keyspace
empty = record {
  clock = 100;
  strings = λ _. none;
  counters = λ _. 0;
  hashes = λ _. [];
  sets = λ _. [];
  zsets = λ _. [];
  streams = λ _. [];
  channels = λ _. [];
  receivers = λ _. 0;
}

-- The lock of user 7 is held by the token `w` until 400.
abbrev pub locked_server : Keyspace
locked_server = record empty { strings = update (λ _. none) (lock_key 7) (some (119 ∷ [], 400)) }

pub locked-holder : holder locked_server 7 ≡ some (119 ∷ [])
locked-holder = rw (text_eq_refl (lock_key 7))

abbrev pub tape : Tape
tape = (0, 5) ∷ (1, 9) ∷ (4, 2) ∷ []

pub tape-IsTape : IsTape tape
tape-IsTape = (
  ((omega arith, λ e. omega arith), ((omega arith, λ e. omega arith), tt)),
  (((omega arith, λ e. omega arith), tt), (tt, tt)),
)

abbrev config : Fields
config = (codes "page_size", codes "20") ∷ (codes "ordering", codes "desc") ∷ []

-- User 7 has a configuration with the source 3, and a tape of three documents.
abbrev pub configured : Keyspace
configured = record empty {
  hashes = update (λ _. []) (cfg_key 7) config;
  sets = update (λ _. []) (cfg_sources_key 7) (codes "3" ∷ []);
  zsets = update (λ _. []) (entries_key 7) (rows tape);
}

pub configured-Holds : Holds configured 7 tape
configured-Holds = rw (text_eq_refl (entries_key 7))

abbrev pub settings : TapeConfig
settings = record {
  user_id = 7;
  ordering = codes "desc";
  display_mode = codes "compact";
  page_size = 20;
  date_from = none;
  date_to = none;
  dirty = false;
}

pub configured-config : config_of std 7 (configured.hashes (cfg_key 7)) ≡ ok (some settings)
configured-config = rw (text_eq_refl (cfg_key 7)) read
  where
    read : config_of std 7 config ≡ ok (some settings)
    read = unfold config_of in refl

pub configured-sources : sorted_ids (configured.sets (cfg_sources_key 7)) ≡ ok (3 ∷ [])
configured-sources = rw (text_eq_refl (cfg_sources_key 7)) read
  where
    read : sorted_ids (codes "3" ∷ []) ≡ ok (3 ∷ [])
    read = unfold sorted_ids in refl
