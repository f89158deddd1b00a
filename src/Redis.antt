-- ===== src/Redis.antt =====
-- The Redis server, which is not part of the repository: the commands that the service sends, and
-- what the Redis documentation says of each, as the action on the keyspace that it implements.
-- `Redis/Data.antt` and `Redis/Command.antt` are that documentation, written as functions.
use mathlib.Core.List.Permᴰ
mod Data
pub use Data.{Fields, Keyspace, SameFields, update}
unfoldable pub use Data.{lookup, insert, merge, insert_member, remove_member, has_member}
pub mod Command
use s3p_tape_service.Prelude.{ℕ, refl, Bool, Option, List, Permᴰ}
use s3p_tape_service.Prelude.Text.{Text}
use s3p_tape_service.Action.{Action, Implements, Delivers}

pub record Redis : Type 1 where
  pub Server : Type 0
  pub view : Server → Keyspace
  -- time that passes on the server, in seconds
  pub elapse : ℕ → Action Server Unit
  pub elapse_law : (n : ℕ) → Implements view (elapse n) (Command.elapse n)
  -- strings: SET k v EX ttl, SET k v NX EX ttl, GET, EXISTS, DEL, INCR
  pub set_ex : Text → Text → ℕ → Action Server Unit
  pub set_ex_law :
      (k v : Text) (ttl : ℕ) → Implements view (set_ex k v ttl) (Command.set_ex k v ttl)
  pub set_nx_ex : Text → Text → ℕ → Action Server Bool
  pub set_nx_ex_law :
      (k v : Text) (ttl : ℕ) → Implements view (set_nx_ex k v ttl) (Command.set_nx_ex k v ttl)
  pub get : Text → Action Server (Option Text)
  pub get_law : (k : Text) → Implements view (get k) (Command.get k)
  pub exists : Text → Action Server Bool
  pub exists_law : (k : Text) → Implements view (exists k) (Command.exists k)
  pub delete : Text → Action Server Unit
  pub delete_law : (k : Text) → Implements view (delete k) (Command.delete k)
  pub incr : Text → Action Server ℕ
  pub incr_law : (k : Text) → Implements view (incr k) (Command.incr k)
  -- hashes and sets: the members of a set, and the fields of a hash, come in no particular order
  pub hgetall : Text → Action Server Fields
  pub hgetall_law : (k : Text) → Delivers SameFields view (hgetall k) (Command.hgetall k)
  pub hget : Text → Text → Action Server (Option Text)
  pub hget_law : (k field : Text) → Implements view (hget k field) (Command.hget k field)
  pub hset : Text → Fields → Action Server Unit
  pub hset_law : (k : Text) (m : Fields) → Implements view (hset k m) (Command.hset k m)
  pub smembers : Text → Action Server (List Text)
  pub smembers_law : (k : Text) → Delivers Permᴰ view (smembers k) (Command.smembers k)
  pub sadd : Text → List Text → Action Server Unit
  pub sadd_law : (k : Text) (ms : List Text) → Implements view (sadd k ms) (Command.sadd k ms)
  -- sorted sets: ZADD NX, ZREM, ZCARD, ZRANGE 0 n, ZRANGE -1 -1, ZRANGEBYSCORE (min +inf LIMIT
  pub zadd_nx : Text → Text → ℕ → Action Server ℕ
  pub zadd_nx_law :
      (k m : Text) (score : ℕ) → Implements view (zadd_nx k m score) (Command.zadd_nx k m score)
  pub zrem : Text → Text → Action Server ℕ
  pub zrem_law : (k m : Text) → Implements view (zrem k m) (Command.zrem k m)
  pub zcard : Text → Action Server ℕ
  pub zcard_law : (k : Text) → Implements view (zcard k) (Command.zcard k)
  pub zrange_first : Text → ℕ → Action Server (List (Text × ℕ))
  pub zrange_first_law :
      (k : Text) (limit : ℕ) → Implements view (zrange_first k limit) (Command.zrange_first k limit)
  pub zrange_last : Text → Action Server (List (Text × ℕ))
  pub zrange_last_law : (k : Text) → Implements view (zrange_last k) (Command.zrange_last k)
  pub zrange_above : Text → ℕ → ℕ → Action Server (List (Text × ℕ))
  pub zrange_above_law :
      (k : Text) (min limit : ℕ)
      → Implements view (zrange_above k min limit) (Command.zrange_above k min limit)
  -- streams and channels
  pub xadd : Text → Fields → Action Server Unit
  pub xadd_law : (k : Text) (m : Fields) → Implements view (xadd k m) (Command.xadd k m)
  pub publish : Text → Text → Action Server ℕ
  pub publish_law : (k m : Text) → Implements view (publish k m) (Command.publish k m)

pub same : {A : Type 0} {m : Action Keyspace A} → Implements (λ s. s) m m
same = record { state = λ s. refl; result = λ s. refl }

-- A server that is nothing but its keyspace.
abbrev pub reference : Redis
reference = record {
  Server = Keyspace;
  view = λ s. s;
  elapse = Command.elapse;
  elapse_law = λ n. same;
  set_ex = Command.set_ex;
  set_ex_law = λ k v ttl. same;
  set_nx_ex = Command.set_nx_ex;
  set_nx_ex_law = λ k v ttl. same;
  get = Command.get;
  get_law = λ k. same;
  exists = Command.exists;
  exists_law = λ k. same;
  delete = Command.delete;
  delete_law = λ k. same;
  incr = Command.incr;
  incr_law = λ k. same;
  hgetall = Command.hgetall;
  hgetall_law = λ k. record { state = λ s. refl; result = λ s k. refl };
  hget = Command.hget;
  hget_law = λ k field. same;
  hset = Command.hset;
  hset_law = λ k m. same;
  smembers = Command.smembers;
  smembers_law = λ k. record { state = λ s. refl; result = λ s. Permᴰ.refl _ };
  sadd = Command.sadd;
  sadd_law = λ k ms. same;
  zadd_nx = Command.zadd_nx;
  zadd_nx_law = λ k m score. same;
  zrem = Command.zrem;
  zrem_law = λ k m. same;
  zcard = Command.zcard;
  zcard_law = λ k. same;
  zrange_first = Command.zrange_first;
  zrange_first_law = λ k limit. same;
  zrange_last = Command.zrange_last;
  zrange_last_law = λ k. same;
  zrange_above = Command.zrange_above;
  zrange_above_law = λ k min limit. same;
  xadd = Command.xadd;
  xadd_law = λ k m. same;
  publish = Command.publish;
  publish_law = λ k m. same;
}
