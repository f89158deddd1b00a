-- ===== src/Store/Tape/Operations.antt =====
-- The other operations on the tape against the list of pairs: pages, counts, positions, removal.
use s3p_tape_service.Prelude.{
  ℕ, zero, suc, ◌+◌, ◌≢◌, ◌<◌, ◌≡◌, refl, ap, false, Option, none, some, [], ◌∷◌, ◌==◌, ltb,
  if◌then◌else◌, arith, All, Bool-cases, inl, inr, length, take, keep_if, last?,
}
use s3p_tape_service.Prelude.Text.{str_of}
use s3p_tape_service.Action.{Action, Implements, Implements-pure}
use s3p_tape_service.Action
use s3p_tape_service.Keys.{entries_key}
use s3p_tape_service.Redis.{Redis, Keyspace, reference}
use s3p_tape_service.Redis.Command.{to_list}
use s3p_tape_service.Store.Tape.Entries.{
  list_entries_page, read_rows, count_entries, max_position, last_score, remove_entry,
  delete_all_entries,
}
use s3p_tape_service.Store.Tape.View.{Tape, rows, has_doc, remove_doc, IsTape, Holds}

-- The page after a position, or the first one.
abbrev pub page : Tape → Option ℕ → ℕ → Tape
page t none limit = if limit == 0 then t else take limit t
page t (some after) limit = take limit (keep_if (λ e. ltb after e.0) t)

pub take-rows : (n : ℕ) (t : Tape) → take n (rows t) ≡ rows (take n t)
take-rows zero t = refl
take-rows (suc n) [] = refl
take-rows (suc n) ((p, d) ∷ t) = ap (◌∷◌ (str_of d, p)) (take-rows n t)

pub keep_if-rows :
    (after : ℕ) (t : Tape)
    → keep_if (λ e. ltb after e.1) (rows t) ≡ rows (keep_if (λ e. ltb after e.0) t)
keep_if-rows after [] = refl
keep_if-rows after ((p, d) ∷ t) = ground (arith, keep_if-rows after t)

pub length-rows : (t : Tape) → length (rows t) ≡ length t
length-rows [] = refl
length-rows ((p, d) ∷ t) = ap suc (length-rows t)

-- The position of the last entry.
abbrev pub last_position : Tape → Option ℕ
last_position [] = none
last_position ((p, d) ∷ []) = some p
last_position ((p, d) ∷ e ∷ t) = last_position (e ∷ t)

abbrev pub start_after : Option ℕ → ℕ
start_after none = 0
start_after (some p) = p + 1

-- In a tape every position is below the one that follows the last.
pub start_after-low : (t : Tape) → IsTape t → All (λ e. e.0 < start_after (last_position t)) t
start_after-low [] h = tt
start_after-low ((p, d) ∷ []) h = (omega arith, tt)
start_after-low ((p, d) ∷ e ∷ t) h =
    let low = start_after-low (e ∷ t) h.1 in (omega (arith, low.0, h.0.0.0), low)

All-remove_doc : (P : ℕ × ℕ → Type 0) (d : ℕ) (t : Tape) → All P t → All P (remove_doc d t)
All-remove_doc P d [] h = tt
All-remove_doc P d ((p, e) ∷ t) h = elim (Bool-cases (d == e)) [
  | inl here ↦ rw here h.1
  | inr there ↦ rw there (h.0, All-remove_doc P d t h.1)
]

not-has_doc : (p d : ℕ) (t : Tape) → All (λ e. (p < e.0) × (d ≢ e.1)) t → has_doc d t ≡ false
not-has_doc p d [] h = refl
not-has_doc p d ((q, e) ∷ t) h = ground (arith, not-has_doc p d t h.1)

pub remove_doc-IsTape : (d : ℕ) (t : Tape) → IsTape t → IsTape (remove_doc d t)
remove_doc-IsTape d [] h = tt
remove_doc-IsTape d ((p, e) ∷ t) h = elim (Bool-cases (d == e)) [
  | inl here ↦ rw here h.1
  | inr there ↦
      rw there (All-remove_doc (λ x. (p < x.0) × (e ≢ x.1)) d t h.0, remove_doc-IsTape d t h.1)
]

-- A removed document is gone, and every other one stays.
pub has_doc-remove_doc :
    (c d : ℕ) (t : Tape)
    → IsTape t
    → has_doc c (remove_doc d t) ≡ (if c == d then false else has_doc c t)
has_doc-remove_doc c d [] h = ground arith
has_doc-remove_doc c d ((p, e) ∷ t) h =
    ground (arith, has_doc-remove_doc c d t h.1, not-has_doc p e t h.0)

pub last_row :
    (t : Tape) (s : Keyspace) (u : ℕ)
    → Holds s u t
    → (max_position reference u s) ≡ (s, last_position t)
unfolding max_position
last_row t s u h = rw h (ap {B = Keyspace × Option ℕ} (λ x. (s, x)) (last-rows t))
  where
    last-rows : (x : Tape) → last_score (to_list (last? (rows x))) ≡ last_position x
    last-rows [] = refl
    last-rows ((p, d) ∷ []) = refl
    last-rows ((p, d) ∷ (q, e) ∷ x) = last-rows ((q, e) ∷ x)

module _ (r : Redis) where
  open r use {
    view, Server, zrange_first_law, zrange_above_law, zrange_last_law, zcard_law, zrem_law,
    delete_law,
  }

  pub list_entries_page-Implements :
      (u : ℕ) (after : Option ℕ) (limit : ℕ)
      → Implements view
          (list_entries_page r u after limit)
          (list_entries_page reference u after limit)
  unfolding list_entries_page
  list_entries_page-Implements u none limit =
      Action.Implements-bind view (zrange_first_law (entries_key u) limit)
        λ z. Implements-pure view (read_rows z)
  list_entries_page-Implements u (some after) limit =
      Action.Implements-bind view (zrange_above_law (entries_key u) after limit)
        λ z. Implements-pure view (read_rows z)

  pub count_entries-Implements :
      (u : ℕ) → Implements view (count_entries r u) (count_entries reference u)
  unfolding count_entries
  count_entries-Implements u = zcard_law (entries_key u)

  pub max_position-Implements :
      (u : ℕ) → Implements view (max_position r u) (max_position reference u)
  unfolding max_position
  max_position-Implements u =
      Action.Implements-bind view (zrange_last_law (entries_key u))
        λ z. Implements-pure view (last_score z)

  pub remove_entry-Implements :
      (u d : ℕ) → Implements view (remove_entry r u d) (remove_entry reference u d)
  unfolding remove_entry
  remove_entry-Implements u d = zrem_law (entries_key u) (str_of d)

  pub delete_all_entries-Implements :
      (u : ℕ) → Implements view (delete_all_entries r u) (delete_all_entries reference u)
  unfolding delete_all_entries
  delete_all_entries-Implements u =
      Action.Implements-bind view (zcard_law (entries_key u))
        λ n. Action.Implements-bind view (delete_law (entries_key u)) λ _. Implements-pure view n
