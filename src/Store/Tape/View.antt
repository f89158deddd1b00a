-- ===== src/Store/Tape/View.antt =====
-- The tape of a user as the list of its (position, document id) pairs, and what the operations do
-- to that list.
use s3p_tape_service.Prelude.{
  ℕ, ◌<◌, ◌≡◌, ◌≢◌, refl, ap, Bool, false, ◌||◌, List, [], ◌∷◌, ◌++◌, ◌==◌, if◌then◌else◌, arith,
  All, All-append,
}
use s3p_tape_service.Prelude.Text.{Text, str_of, text_eq, text_eq_iff}
use s3p_tape_service.Prelude.Text.RoundTrip.{str_of-injective, int_of-str_of}
use s3p_tape_service.Errors.{ok}
use s3p_tape_service.Redis.{Keyspace, update, has_member, insert_member, remove_member}
use s3p_tape_service.Keys.{entries_key}
use s3p_tape_service.Store.Tape.Entries.{read_rows}

abbrev pub Tape : Type 0
Tape = List (ℕ × ℕ)

-- How Redis holds a tape.
abbrev pub rows : Tape → List (Text × ℕ)
rows [] = []
rows ((position, document_id) ∷ t) = (str_of document_id, position) ∷ rows t

abbrev pub has_doc : ℕ → Tape → Bool
has_doc d [] = false
has_doc d ((_, e) ∷ t) = d == e || has_doc d t

abbrev pub remove_doc : ℕ → Tape → Tape
remove_doc d [] = []
remove_doc d ((p, e) ∷ t) = if d == e then t else (p, e) ∷ remove_doc d t

-- Positions increase, and no document stands twice.
abbrev pub IsTape : Tape → Type 0
IsTape [] = Unit
IsTape ((p, d) ∷ t) = All (λ e. (p < e.0) × (d ≢ e.1)) t × IsTape t

-- The keyspace in which the sorted set of the user is `z`.
abbrev pub put_zset : Keyspace → ℕ → List (Text × ℕ) → Keyspace
put_zset s user_id z = record s { zsets = update s.zsets (entries_key user_id) z }

-- The user's sorted set holds the tape `t`.
abbrev pub Holds : Keyspace → ℕ → Tape → Type 0
Holds s user_id t = s.zsets (entries_key user_id) ≡ rows t

pub text_eq-str_of : (d e : ℕ) → text_eq (str_of d) (str_of e) ≡ (d == e)
text_eq-str_of d e =
    ground
      (arith, text_eq_iff (str_of d) (str_of e), str_of-injective d e, λ (p : d ≡ e). ap str_of p)

pub has_member-rows : (d : ℕ) (t : Tape) → has_member (str_of d) (rows t) ≡ has_doc d t
unfolding has_member
has_member-rows d [] = refl
has_member-rows d ((p, e) ∷ t) = rw (text_eq-str_of d e, has_member-rows d t)

pub insert_member-rows :
    (d p : ℕ) (t : Tape)
    → All (λ e. e.0 < p) t
    → insert_member (str_of d) p (rows t) ≡ rows (t ++ (p, d) ∷ [])
unfolding insert_member
insert_member-rows d p [] h = refl
insert_member-rows d p ((q, e) ∷ t) h = ground (arith, insert_member-rows d p t h.1)

pub remove_member-rows :
    (d : ℕ) (t : Tape) → remove_member (str_of d) (rows t) ≡ rows (remove_doc d t)
unfolding remove_member
remove_member-rows d [] = refl
remove_member-rows d ((p, e) ∷ t) = rw (text_eq-str_of d e) (ground (arith, remove_member-rows d t))

-- What was written is read back.
pub read_rows-rows : (t : Tape) → read_rows (rows t) ≡ ok t
unfolding read_rows
read_rows-rows [] = refl
read_rows-rows ((p, d) ∷ t) = ground (arith, int_of-str_of d, read_rows-rows t)

pub IsTape-append_one :
    (p d : ℕ) (t : Tape)
    → IsTape t
    → All (λ e. e.0 < p) t
    → has_doc d t ≡ false
    → IsTape (t ++ (p, d) ∷ [])
IsTape-append_one p d [] h a new = (tt, tt)
IsTape-append_one p d ((q, e) ∷ t) h a new = (
  All-append (λ x. (q < x.0) × (e ≢ x.1)) t ((p, d) ∷ []) h.0 ((a.0, ground arith), tt),
  IsTape-append_one p d t h.1 a.1 (ground arith),
)
