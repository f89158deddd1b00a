-- ===== src/Keys.antt =====
-- The names of keys and channels: the f-strings of src/tape_service/store/tape.py, lock.py,
-- sessions.py and events.py. Keys of different kinds differ, and so do keys of different users, so
-- that each key of the service holds one kind of value.
use s3p_tape_service.Prelude.{ℕ, ◌≡◌, ◌≢◌, ◌++◌, arith}
use s3p_tape_service.Prelude.Text.{Text, codes, str_of}
use s3p_tape_service.Prelude.Text.RoundTrip.{str_of-injective, str_of-ne-src}

unfoldable pub cfg_key : ℕ → Text
cfg_key user_id = codes "tape:cfg:" ++ str_of user_id

unfoldable pub cfg_sources_key : ℕ → Text
cfg_sources_key user_id = codes "tape:cfg:src:" ++ str_of user_id

unfoldable pub entries_key : ℕ → Text
entries_key user_id = codes "tape:entries:" ++ str_of user_id

unfoldable pub runs_key : ℕ → Text
runs_key user_id = codes "tape:runs:" ++ str_of user_id

abbrev pub run_counter_key : Text
run_counter_key = codes "tape:run:counter"

-- `_key` of lock.py
unfoldable pub lock_key : ℕ → Text
lock_key user_id = codes "tape:lock:" ++ str_of user_id

-- `_key` of sessions.py
unfoldable pub session_key : Text → Text
session_key session_hash = codes "sess:" ++ session_hash

unfoldable pub channel_for : ℕ → Text
channel_for user_id = codes "tape:events:" ++ str_of user_id

-- The keys of two users are different.
pub entries_key-injective : (u v : ℕ) → entries_key u ≡ entries_key v → u ≡ v
unfolding entries_key
entries_key-injective u v e = str_of-injective u v (cc)

pub cfg_key-injective : (u v : ℕ) → cfg_key u ≡ cfg_key v → u ≡ v
unfolding cfg_key
cfg_key-injective u v e = str_of-injective u v (cc)

-- The hash of a configuration is never the set of its sources, though the names share a prefix.
pub cfg_key-ne-cfg_sources_key : (u v : ℕ) → cfg_key u ≢ cfg_sources_key v
unfolding cfg_key cfg_sources_key
cfg_key-ne-cfg_sources_key u v e = str_of-ne-src u (str_of v) (cc)

pub cfg_key-ne-entries_key : (u v : ℕ) → cfg_key u ≢ entries_key v
unfolding cfg_key entries_key
cfg_key-ne-entries_key u v e = ground arith

pub lock_key-ne-session_key : (u : ℕ) (h : Text) → lock_key u ≢ session_key h
unfolding lock_key session_key
lock_key-ne-session_key u v e = ground arith

pub entries_key-ne-lock_key : (u v : ℕ) → entries_key u ≢ lock_key v
unfolding entries_key lock_key
entries_key-ne-lock_key u v e = ground arith

pub cfg_key-ne-lock_key : (u v : ℕ) → cfg_key u ≢ lock_key v
unfolding cfg_key lock_key
cfg_key-ne-lock_key u v e = ground arith

pub lock_key-ne-entries_key : (u v : ℕ) → lock_key u ≢ entries_key v
unfolding entries_key lock_key
lock_key-ne-entries_key u v e = ground arith

pub cfg_sources_key-injective : (u v : ℕ) → cfg_sources_key u ≡ cfg_sources_key v → u ≡ v
unfolding cfg_sources_key
cfg_sources_key-injective u v e = str_of-injective u v (cc)

pub lock_key-injective : (u v : ℕ) → lock_key u ≡ lock_key v → u ≡ v
unfolding lock_key
lock_key-injective u v e = str_of-injective u v (cc)

pub channel_for-injective : (u v : ℕ) → channel_for u ≡ channel_for v → u ≡ v
unfolding channel_for
channel_for-injective u v e = str_of-injective u v (cc)

pub entries_key-ne-cfg_sources_key : (u v : ℕ) → entries_key u ≢ cfg_sources_key v
unfolding entries_key cfg_sources_key
entries_key-ne-cfg_sources_key u v e = ground arith

pub entries_key-ne-session_key : (u : ℕ) (h : Text) → entries_key u ≢ session_key h
unfolding entries_key session_key
entries_key-ne-session_key u h e = ground arith

pub cfg_key-ne-session_key : (u : ℕ) (h : Text) → cfg_key u ≢ session_key h
unfolding cfg_key session_key
cfg_key-ne-session_key u h e = ground arith

pub cfg_sources_key-ne-entries_key : (u v : ℕ) → cfg_sources_key u ≢ entries_key v
unfolding cfg_sources_key entries_key
cfg_sources_key-ne-entries_key u v e = ground arith

pub cfg_sources_key-ne-lock_key : (u v : ℕ) → cfg_sources_key u ≢ lock_key v
unfolding cfg_sources_key lock_key
cfg_sources_key-ne-lock_key u v e = ground arith

pub cfg_sources_key-ne-session_key : (u : ℕ) (h : Text) → cfg_sources_key u ≢ session_key h
unfolding cfg_sources_key session_key
cfg_sources_key-ne-session_key u h e = ground arith

pub lock_key-ne-cfg_sources_key : (u v : ℕ) → lock_key u ≢ cfg_sources_key v
unfolding lock_key cfg_sources_key
lock_key-ne-cfg_sources_key u v e = ground arith
