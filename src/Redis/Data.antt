-- ===== src/Redis/Data.antt =====
-- The part of a Redis keyspace that the service can observe.
use s3p_tape_service.Prelude.{
  ℕ, ◌≡◌, Bool, false, Option, none, some, List, [], ◌∷◌, ltb, ◌==◌, ◌&&◌, ◌||◌, if◌then◌else◌,
}
use s3p_tape_service.Prelude.Text.{Text, text_eq, text_lt}

-- The fields of a hash or of a stream's entry.
abbrev pub Fields : Type 0
Fields = List (Text × Text)

-- One map for each kind of value: a key of the service holds one kind only (`Keys.antt`).
-- `strings` holds a value with the time at which it expires; `counters`, the strings that INCR
-- counts in; `streams` and `channels`, all that was ever added or published, oldest first; and
-- `receivers`, how many clients are subscribed.
pub record Keyspace : Type 0 where
  pub clock : ℕ
  pub strings : Text → Option (Text × ℕ)
  pub counters : Text → ℕ
  pub hashes : Text → Fields
  pub sets : Text → List Text
  pub zsets : Text → List (Text × ℕ)
  pub streams : Text → List Fields
  pub channels : Text → List Text
  pub receivers : Text → ℕ

abbrev pub update : {A : Type 0} → (Text → A) → Text → A → Text → A
update f k v j = if text_eq j k then v else f j

-- The value of a field.
unfoldable pub lookup : Text → Fields → Option Text
lookup k [] = none
lookup k ((j, v) ∷ m) = if text_eq k j then some v else lookup k m

-- The same value for every field.
abbrev pub SameFields : Fields → Fields → Type 0
SameFields m n = (k : Text) → lookup k m ≡ lookup k n

unfoldable pub insert : Text → Text → Fields → Fields
insert k v [] = (k, v) ∷ []
insert k v ((j, w) ∷ m) = if text_eq k j then (k, v) ∷ m else (j, w) ∷ insert k v m

-- The fields `new` written over a hash, in order.
unfoldable pub merge : Fields → Fields → Fields
unfolding insert
merge m [] = m
merge m ((k, v) ∷ new) = merge (insert k v m) new

unfoldable pub has_member : Text → List (Text × ℕ) → Bool
has_member m [] = false
has_member m ((j, _) ∷ z) = text_eq m j || has_member m z

-- A sorted set is ordered by score, and by member among equal scores.
unfoldable pub insert_member : Text → ℕ → List (Text × ℕ) → List (Text × ℕ)
insert_member m score [] = (m, score) ∷ []
insert_member m score ((j, s) ∷ z) =
    if ltb score s || (score == s && text_lt m j)
    then (m, score) ∷ (j, s) ∷ z
    else (j, s) ∷ insert_member m score z

unfoldable pub remove_member : Text → List (Text × ℕ) → List (Text × ℕ)
remove_member m [] = []
remove_member m ((j, s) ∷ z) = if text_eq m j then z else (j, s) ∷ remove_member m z
