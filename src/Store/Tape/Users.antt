-- ===== src/Store/Tape/Users.antt =====
-- `list_users_with_config` of src/tape_service/store/tape.py. The keys that SCAN finds are an
-- argument: it returns each key that is there all the while at least once.
use s3p_tape_service.Prelude.{
  ℕ, ◌≡◌, refl, ap, ◌∙◌, Bool, false, Option, none, some, List, [], ◌∷◌, ◌++◌, map, if◌then◌else◌,
  arith,
}
use s3p_tape_service.Prelude.Text.{Text, codes, str_of, int_of, starts_with, remove_prefix}
use s3p_tape_service.Prelude.Text.RoundTrip.{int_of-str_of}
use s3p_tape_service.Action.{Action, pure, ◌>>=◌, Implements}
use s3p_tape_service.Action
use s3p_tape_service.Keys.{cfg_key, cfg_sources_key}
use s3p_tape_service.Redis.{Redis, Keyspace, reference, lookup}
use s3p_tape_service.Store.Tape.Config.{is_one}

-- The user id in the name of a key: `none` where the loop continues.
unfoldable pub user_of_key : Text → Option ℕ
unfolding starts_with remove_prefix int_of
user_of_key key =
    if starts_with (codes "tape:cfg:src:") key
    then none
    else int_of (remove_prefix (codes "tape:cfg:") key)

module _ (r : Redis) where
  open r use {Server, hget}

  -- One round of the loop: what it appends.
  unfoldable pub dirty_of : Text → Option ℕ → Action Server (List (ℕ × Bool))
  unfolding is_one
  dirty_of key none = pure []
  dirty_of key (some uid) = do value ← hget key (codes "dirty"); pure ((uid, is_one value) ∷ [])

  unfoldable pub list_users_with_config : List Text → Action Server (List (ℕ × Bool))
  unfolding dirty_of user_of_key
  list_users_with_config [] = pure []
  list_users_with_config (key ∷ keys) = do
    here ← dirty_of key (user_of_key key)
    rest ← list_users_with_config keys
    pure (here ++ rest)

-- A key of a user's configuration, or of a user's sources.
pub data Kind : Type 0 where
  config sources : Kind

abbrev pub key_for : Kind × ℕ → Text
key_for (config, u) = cfg_key u
key_for (sources, u) = cfg_sources_key u

-- The users whose configuration is among the keys, with their dirty flags.
abbrev pub flags : Keyspace → List (Kind × ℕ) → List (ℕ × Bool)
flags s [] = []
flags s ((config, u) ∷ keys) =
    (u, is_one (lookup (codes "dirty") (s.hashes (cfg_key u)))) ∷ flags s keys
flags s ((sources, u) ∷ keys) = flags s keys

not_src : (t : Text) (n : ℕ) → int_of t ≡ some n → starts_with (codes "src:") t ≡ false
unfolding int_of starts_with
not_src [] n h = refl
not_src (c ∷ t) n h = ground arith

user_of_key-cfg_key : (u : ℕ) → user_of_key (cfg_key u) ≡ some u
unfolding user_of_key cfg_key starts_with remove_prefix
user_of_key-cfg_key u = rw (not_src (str_of u) u (int_of-str_of u), int_of-str_of u)

user_of_key-cfg_sources_key : (u : ℕ) → user_of_key (cfg_sources_key u) ≡ none
unfolding user_of_key cfg_sources_key
user_of_key-cfg_sources_key u = refl

list_users-reference :
    (keys : List (Kind × ℕ)) (s : Keyspace)
    → list_users_with_config reference (map key_for keys) s ≡ (s, flags s keys)
unfolding list_users_with_config
list_users-reference [] s = refl
list_users-reference ((config, u) ∷ keys) s =
    rw (user_of_key-cfg_key u, list_users-reference keys s) refl
list_users-reference ((sources, u) ∷ keys) s =
    rw (user_of_key-cfg_sources_key u, list_users-reference keys s) refl

module _ (r : Redis) where
  open r use {Server, view, hget_law}

  dirty_of-Implements :
      (key : Text) (o : Option ℕ) → Implements view (dirty_of r key o) (dirty_of reference key o)
  unfolding dirty_of
  dirty_of-Implements key none = Action.Implements-pure view []
  dirty_of-Implements key (some uid) =
      Action.Implements-bind view (hget_law key (codes "dirty"))
        λ value. Action.Implements-pure view ((uid, is_one value) ∷ [])

  pub list_users-Implements :
      (keys : List Text)
      → Implements view (list_users_with_config r keys) (list_users_with_config reference keys)
  unfolding list_users_with_config
  list_users-Implements [] = Action.Implements-pure view []
  list_users-Implements (key ∷ keys) =
      Action.Implements-bind view (dirty_of-Implements key (user_of_key key)) λ here.
        Action.Implements-bind view (list_users-Implements keys)
          λ rest. Action.Implements-pure view (here ++ rest)

  -- When SCAN finds the keys of configurations and of sets of sources, in any order, the list holds
  -- the user of each configuration, in the order of the keys, with its dirty flag, and no other
  -- user; nothing changes on the server.
  pub list_users_with_config_lem :
      (srv : Server) (keys : List (Kind × ℕ))
      → let (srv', users) = list_users_with_config r (map key_for keys) srv in
        (view srv' ≡ view srv) × (users ≡ flags (view srv) keys)
  list_users_with_config_lem srv keys = (
    (list_users-Implements (map key_for keys)).state srv
        ∙ ap (λ (x : Keyspace × List (ℕ × Bool)). x.0) (list_users-reference keys (view srv)),
    (list_users-Implements (map key_for keys)).result srv
        ∙ ap (λ (x : Keyspace × List (ℕ × Bool)). x.1) (list_users-reference keys (view srv)),
  )
