-- ===== src/Redis/Command.antt =====
-- What each command does to the keyspace and replies, after the Redis documentation.
use s3p_tape_service.Prelude.{
  ℕ, ◌+◌, Bool, true, false, Option, none, some, List, [], ◌∷◌, ◌++◌, ltb, ◌==◌, if◌then◌else◌,
  length, take, keep_if, last?,
}
use s3p_tape_service.Prelude.Text.{Text, text_eq}
use s3p_tape_service.Action.{Action}
use s3p_tape_service.Redis.Data.{
  Fields, Keyspace, update, merge, lookup, has_member, insert_member, remove_member,
}

-- The value of a string that has not expired.
abbrev pub live : ℕ → Option (Text × ℕ) → Option Text
live now none = none
live now (some (v, deadline)) = if ltb now deadline then some v else none

abbrev pub is_some : Option Text → Bool
is_some none = false
is_some (some _) = true

abbrev pub elapse : ℕ → Action Keyspace Unit
elapse n s = (record s { clock = s.clock + n }, tt)

abbrev pub set_ex : Text → Text → ℕ → Action Keyspace Unit
set_ex k v ttl s = (record s { strings = update s.strings k (some (v, s.clock + ttl)) }, tt)

abbrev pub get : Text → Action Keyspace (Option Text)
get k s = (s, live s.clock (s.strings k))

-- The keys for which the service asks EXISTS hold strings.
abbrev pub exists : Text → Action Keyspace Bool
exists k s = (s, is_some (live s.clock (s.strings k)))

abbrev pub set_nx_ex : Text → Text → ℕ → Action Keyspace Bool
set_nx_ex k v ttl s =
    if is_some (live s.clock (s.strings k)) then (s, false) else ((set_ex k v ttl s).0, true)

abbrev pub delete : Text → Action Keyspace Unit
delete k s = (
  record s {
    strings = update s.strings k none;
    counters = update s.counters k 0;
    hashes = update s.hashes k [];
    sets = update s.sets k [];
    zsets = update s.zsets k [];
    streams = update s.streams k [];
  },
  tt,
)

abbrev pub incr : Text → Action Keyspace ℕ
incr k s = (record s { counters = update s.counters k (s.counters k + 1) }, s.counters k + 1)

abbrev pub hgetall : Text → Action Keyspace Fields
hgetall k s = (s, s.hashes k)

abbrev pub hget : Text → Text → Action Keyspace (Option Text)
hget k field s = (s, lookup field (s.hashes k))

abbrev pub hset : Text → Fields → Action Keyspace Unit
hset k m s = (record s { hashes = update s.hashes k (merge (s.hashes k) m) }, tt)

abbrev pub smembers : Text → Action Keyspace (List Text)
smembers k s = (s, s.sets k)

abbrev pub has : List Text → Text → Bool
has [] m = false
has (j ∷ js) m = if text_eq m j then true else has js m

abbrev pub add_all : List Text → List Text → List Text
add_all js [] = js
add_all js (m ∷ ms) = add_all (if has js m then js else js ++ m ∷ []) ms

abbrev pub sadd : Text → List Text → Action Keyspace Unit
sadd k ms s = (record s { sets = update s.sets k (add_all (s.sets k) ms) }, tt)

abbrev pub zadd_nx : Text → Text → ℕ → Action Keyspace ℕ
zadd_nx k m score s =
    if has_member m (s.zsets k)
    then (s, 0)
    else (record s { zsets = update s.zsets k (insert_member m score (s.zsets k)) }, 1)

abbrev pub zrem : Text → Text → Action Keyspace ℕ
zrem k m s =
    if has_member m (s.zsets k)
    then (record s { zsets = update s.zsets k (remove_member m (s.zsets k)) }, 1)
    else (s, 0)

abbrev pub zcard : Text → Action Keyspace ℕ
zcard k s = (s, length (s.zsets k))

-- ZRANGE k 0 limit-1: with `limit` 0 the end is -1, the last item.
abbrev pub zrange_first : Text → ℕ → Action Keyspace (List (Text × ℕ))
zrange_first k limit s = (s, if limit == 0 then s.zsets k else take limit (s.zsets k))

abbrev pub to_list : Option (Text × ℕ) → List (Text × ℕ)
to_list none = []
to_list (some e) = e ∷ []

-- ZRANGE k -1 -1
abbrev pub zrange_last : Text → Action Keyspace (List (Text × ℕ))
zrange_last k s = (s, to_list (last? (s.zsets k)))

-- ZRANGEBYSCORE k (min +inf LIMIT 0 limit
abbrev pub zrange_above : Text → ℕ → ℕ → Action Keyspace (List (Text × ℕ))
zrange_above k min limit s = (s, take limit (keep_if (λ e. ltb min e.1) (s.zsets k)))

abbrev pub xadd : Text → Fields → Action Keyspace Unit
xadd k m s = (record s { streams = update s.streams k (s.streams k ++ m ∷ []) }, tt)

abbrev pub publish : Text → Text → Action Keyspace ℕ
publish k m s =
    (record s { channels = update s.channels k (s.channels k ++ m ∷ []) }, s.receivers k)
