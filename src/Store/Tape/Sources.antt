-- ===== src/Store/Tape/Sources.antt =====
-- The sources that `set_config_sources` writes, `get_config_sources` reads back in ascending order
-- and each once.
use s3p_tape_service.Prelude.{
  ℕ, ◌≡◌, refl, ap, sym, ◌∙◌, Bool, true, false, List, [], ◌∷◌, ◌++◌, map, if◌then◌else◌, arith,
  contains, map-append, Permᴰ,
}
use s3p_tape_service.Prelude.Dict
use s3p_tape_service.Prelude.Dict.{add, insert_sorted, sorted}
use s3p_tape_service.Prelude.Sets.{
  IsAscending, add_all-IsDistinct, contains-add_all, contains-sorted, sorted-IsAscending,
}
use s3p_tape_service.Prelude.Text.{Text, str_of, text_eq_refl}
use s3p_tape_service.Prelude.Text.RoundTrip.{int_of-str_of}
use s3p_tape_service.Errors.{Result, ok}
use s3p_tape_service.Keys.{cfg_sources_key}
use s3p_tape_service.Redis.{Redis, Keyspace, reference}
use s3p_tape_service.Redis.Command
use s3p_tape_service.Redis.Command.{has}
use s3p_tape_service.Store.Tape.Config.{sorted_ids, get_config_sources, set_config_sources}
use s3p_tape_service.Store.Tape.Config.Laws.{
  get_config_sources-Implements, set_config_sources-Implements,
}
use s3p_tape_service.Store.Tape.Entries.{int_or_raise}
use s3p_tape_service.Store.Tape.View.{text_eq-str_of}
use mathlib.Core.Quot.{Quot, mk}
use mathlib.Core.Quot.{lift}
use s3p_tape_service.Store.Tape.Config.Replies.{sorted_ids-Permᴰ}

has-str_of : (s : List ℕ) (a : ℕ) → has (map str_of s) (str_of a) ≡ contains s a
has-str_of [] a = refl
has-str_of (x ∷ s) a = ground (arith, text_eq-str_of a x, has-str_of s a)

add_all-str_of :
    (s xs : List ℕ)
    → Command.add_all (map str_of s) (map str_of xs) ≡ map str_of (Dict.add_all s xs)
add_all-str_of s [] = refl
add_all-str_of s (a ∷ xs) =
    ap
      (λ (b : Bool).
        Command.add_all (if b then map str_of s else map str_of s ++ str_of a ∷ []) (map str_of xs))
      (has-str_of s a)
    ∙ ap (λ t. Command.add_all t (map str_of xs)) (branch (contains s a))
    ∙ add_all-str_of (add a s) xs
  where
    branch :
        (b : Bool)
        → (if b then map str_of s else map str_of s ++ str_of a ∷ [])
          ≡ map str_of (if b then s else s ++ a ∷ [])
    branch true = refl
    branch false = sym (map-append str_of s (a ∷ []))

sorted_ids-str_of : (xs : List ℕ) → sorted_ids (map str_of xs) ≡ ok (sorted xs)
unfolding sorted_ids sorted
sorted_ids-str_of [] = refl
sorted_ids-str_of (x ∷ xs) = rw (int_or_raise, int_of-str_of x, sorted_ids-str_of xs)

-- The members of the set after `set_config_sources`.
sources_after :
    (u : ℕ) (ids : List ℕ) (s : Keyspace)
    → (set_config_sources reference u ids s).0.sets (cfg_sources_key u)
      ≡ map str_of (Dict.add_all [] ids)
unfolding set_config_sources
sources_after u [] s = rw (text_eq_refl (cfg_sources_key u))
sources_after u (i ∷ ids) s = rw (text_eq_refl (cfg_sources_key u)) (add_all-str_of [] (i ∷ ids))

-- After the sources of a user are written, reading them gives the same ids, in ascending order and
-- each once.
pub get_config_sources-set_config_sources :
    (r : Redis) (srv : r.Server) (u : ℕ) (ids : List ℕ)
    → (out : List ℕ) × ((get_config_sources r u (set_config_sources r u ids srv).0).1 ≡ ok out)
      × IsAscending out
      × ((d : ℕ) → contains out d ≡ contains ids d)
unfolding get_config_sources sorted_ids
get_config_sources-set_config_sources r srv u ids = (
  sorted (Dict.add_all [] ids),
  (get_config_sources-Implements r u).result _
      ∙ ap sorted_ids (
          ap (λ (k : Keyspace). k.sets (cfg_sources_key u))
            ((set_config_sources-Implements r u ids).state srv)
          ∙ sources_after u ids (r.view srv))
      ∙ sorted_ids-str_of (Dict.add_all [] ids),
  sorted-IsAscending (Dict.add_all [] ids) (add_all-IsDistinct [] ids tt),
  λ d. contains-sorted (Dict.add_all [] ids) d ∙ contains-add_all [] ids d,
)

-- A set of texts: its members in no particular order.
abbrev pub TextSet : Type 0
TextSet = Quot (Permᴰ {A = Text})

abbrev pub set_of : List Text → TextSet
set_of ms = mk ms

Result-IsSet : IsSet (Result (List ℕ))
Result-IsSet = hlevel

-- What `get_config_sources` makes of a set.
abbrev sources_of : TextSet → Result (List ℕ)
sources_of = lift Result-IsSet sorted_ids sorted_ids-Permᴰ

-- If the set that Redis holds for a user is that of the numbers `ids`, in whatever order and
-- whatever order Redis sends it in, reading the sources gives the numbers sorted, and changes
-- nothing on the server.
pub get_config_sources_lem :
    (r : Redis) (srv : r.Server) (u : ℕ) (ids : List ℕ)
    → set_of ((r.view srv).sets (cfg_sources_key u)) ≡ set_of (map str_of ids)
    → ((get_config_sources r u srv).1 ≡ ok (sorted ids))
      × (r.view (get_config_sources r u srv).0 ≡ r.view srv)
unfolding get_config_sources
get_config_sources_lem r srv u ids same = (
  (get_config_sources-Implements r u).result srv ∙ ap sources_of same ∙ sorted_ids-str_of ids,
  (get_config_sources-Implements r u).state srv,
)
