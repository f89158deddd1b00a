-- ===== src/Service/Ordered.antt =====
-- At every moment each user's sorted set is a list of documents, each once, in the order of their
-- positions: whatever the requests and the runs of the worker do, and however they interleave.
use s3p_tape_service.Prelude.{
  Bool, ℕ, ◌≤◌, ◌≡◌, ◌≢◌, refl, ap, ◌∙◌, false, ◌&&◌, ◌||◌, List, [], ◌∷◌, ◌==◌, ltb, arith,
  if◌then◌else◌, Bool-cases, inl, inr, All,
}
use s3p_tape_service.Prelude.Text.{Text, str_of, text_eq, text_lt}
use s3p_tape_service.Keys.{entries_key, cfg_sources_key, lock_key, session_key}
use s3p_tape_service.Redis.{Keyspace, has_member, insert_member, remove_member, update}
use s3p_tape_service.Redis.Command.{is_some, live}
use s3p_tape_service.Store.Tape.View.{
  Tape, rows, has_doc, remove_doc, has_member-rows, remove_member-rows,
}
use s3p_tape_service.Service.Steps.{
  Step, passes, enters, leaves, empties, configures, chooses, forgets, locks, unlocks, counts, logs,
  tells, signs_in, signs_out,
}

-- Positions never decrease, and no document stands twice.
abbrev pub IsOrderedTape : Tape → Type 0
IsOrderedTape [] = Unit
IsOrderedTape ((p, d) ∷ t) = All (λ e. (p ≤ e.0) × (d ≢ e.1)) t × IsOrderedTape t

-- The sorted set `z` is a tape.
abbrev pub IsSound : List (Text × ℕ) → Type 0
IsSound z = (t : Tape) × (z ≡ rows t) × IsOrderedTape t

-- Where Redis puts a document with the position `p`.
insert_doc : ℕ → ℕ → Tape → Tape
insert_doc d p [] = (p, d) ∷ []
insert_doc d p ((q, e) ∷ t) =
    if ltb p q || (p == q && text_lt (str_of d) (str_of e))
    then (p, d) ∷ (q, e) ∷ t
    else (q, e) ∷ insert_doc d p t

insert_member-insert_doc :
    (d p : ℕ) (t : Tape) → insert_member (str_of d) p (rows t) ≡ rows (insert_doc d p t)
unfolding insert_member insert_doc
insert_member-insert_doc d p [] = refl
insert_member-insert_doc d p ((q, e) ∷ t) = ground (arith, insert_member-insert_doc d p t)

All-insert_doc :
    (P : ℕ × ℕ → Type 0) (d p : ℕ) (t : Tape) → P (p, d) → All P t → All P (insert_doc d p t)
unfolding insert_doc
All-insert_doc P d p [] h k = (h, tt)
All-insert_doc P d p ((q, e) ∷ t) h k =
    elim (Bool-cases (ltb p q || (p == q && text_lt (str_of d) (str_of e)))) [
      | inl before ↦ rw before (h, k)
      | inr after ↦ rw after (k.0, All-insert_doc P d p t h k.1)
    ]

All-above :
    (p q d : ℕ) (t : Tape)
    → p ≤ q
    → has_doc d t ≡ false
    → (e : ℕ) → All (λ x. (q ≤ x.0) × (e ≢ x.1)) t
    → All (λ x. (p ≤ x.0) × (d ≢ x.1)) t
All-above p q d [] below new e h = tt
All-above p q d ((i, j) ∷ t) below new e h =
    ((omega (arith, h.0.0), ground arith), All-above p q d t below (ground arith) e h.1)

insert_doc-IsOrderedTape :
    (d p : ℕ) (t : Tape) → IsOrderedTape t → has_doc d t ≡ false → IsOrderedTape (insert_doc d p t)
unfolding insert_doc
insert_doc-IsOrderedTape d p [] h new = (tt, tt)
insert_doc-IsOrderedTape d p ((q, e) ∷ t) h new =
    elim (Bool-cases (ltb p q || (p == q && text_lt (str_of d) (str_of e)))) [
      | inl before ↦
          let below : p ≤ q = ground arith in
          rw before (((below, ground arith), All-above p q d t below (ground arith) e h.0), h)
      | inr after ↦ rw after (
        All-insert_doc (λ x. (q ≤ x.0) × (e ≢ x.1)) d p t (ground arith, ground arith) h.0,
        insert_doc-IsOrderedTape d p t h.1 (ground arith),
      )
    ]

All-remove_doc : (P : ℕ × ℕ → Type 0) (d : ℕ) (t : Tape) → All P t → All P (remove_doc d t)
All-remove_doc P d [] h = tt
All-remove_doc P d ((p, e) ∷ t) h = elim (Bool-cases (d == e)) [
  | inl here ↦ rw here h.1
  | inr away ↦ rw away (h.0, All-remove_doc P d t h.1)
]

remove_doc-IsOrderedTape : (d : ℕ) (t : Tape) → IsOrderedTape t → IsOrderedTape (remove_doc d t)
remove_doc-IsOrderedTape d [] h = tt
remove_doc-IsOrderedTape d ((p, e) ∷ t) h = elim (Bool-cases (d == e)) [
  | inl here ↦ rw here h.1
  | inr away ↦ rw away (All-remove_doc _ d t h.0, remove_doc-IsOrderedTape d t h.1)
]

IsSound-insert_member :
    (d p : ℕ) (z : List (Text × ℕ))
    → has_member (str_of d) z ≡ false
    → IsSound z
    → IsSound (insert_member (str_of d) p z)
IsSound-insert_member d p z new (t, same, h) = (
  insert_doc d p t,
  ap (insert_member (str_of d) p) same ∙ insert_member-insert_doc d p t,
  insert_doc-IsOrderedTape d p t h (cc (has_member-rows d t, same, new)),
)

IsSound-remove_member :
    (d : ℕ) (z : List (Text × ℕ)) → IsSound z → IsSound (remove_member (str_of d) z)
IsSound-remove_member d z (t, same, h) = (
  remove_doc d t,
  ap (remove_member (str_of d)) same ∙ remove_member-rows d t,
  remove_doc-IsOrderedTape d t h,
)

empty-IsSound : IsSound []
empty-IsSound = ([], refl, tt)

IsSound-update :
    (f : Text → List (Text × ℕ)) (k j : Text) (z : List (Text × ℕ))
    → IsSound z
    → IsSound (f j)
    → IsSound (update f k z j)
IsSound-update f k j z new old = elim (Bool-cases (text_eq j k)) [
  | inl here ↦ rw here new
  | inr away ↦ rw away old
]

-- Every user's sorted set is a tape.
abbrev pub AllSound : Keyspace → Type 0
AllSound s = (v : ℕ) → IsSound (s.zsets (entries_key v))

pub Step-AllSound : (b : Bool) (l u : ℕ) (s t : Keyspace) → Step b l u s t → AllSound s → AllSound t
Step-AllSound b l u s t (enters d p) h v =
    elim (Bool-cases (has_member (str_of d) (s.zsets (entries_key u)))) [
      | inl here ↦ rw here (h v)
      | inr new ↦ rw new (
          IsSound-update s.zsets (entries_key u) (entries_key v) _
            (IsSound-insert_member d p (s.zsets (entries_key u)) new (h u)) (h v))
    ]
Step-AllSound b l u s t (leaves d) h v =
    elim (Bool-cases (has_member (str_of d) (s.zsets (entries_key u)))) [
      | inl here ↦ rw here (
          IsSound-update s.zsets (entries_key u) (entries_key v) _
            (IsSound-remove_member d (s.zsets (entries_key u)) (h u)) (h v))
      | inr absent ↦ rw absent (h v)
    ]
Step-AllSound b l u s t empties h v =
    IsSound-update s.zsets (entries_key u) _ [] empty-IsSound (h v)
Step-AllSound b l u s t forgets h v =
    IsSound-update s.zsets (cfg_sources_key u) _ [] empty-IsSound (h v)
Step-AllSound b l u s t (unlocks free_to) h v =
    IsSound-update s.zsets (lock_key u) _ [] empty-IsSound (h v)
Step-AllSound b l u s t (signs_out k) h v =
    IsSound-update s.zsets (session_key k) _ [] empty-IsSound (h v)
Step-AllSound b l u s t (locks free_to token) h v =
    elim (Bool-cases (is_some (live s.clock (s.strings (lock_key u))))) [
      | inl held ↦ rw held (h v)
      | inr free ↦ rw free (h v)
    ]
Step-AllSound b l u s t (passes n) h v = h v
Step-AllSound b l u s t (configures m) h v = h v
Step-AllSound b l u s t (chooses ids) h v = h v
Step-AllSound b l u s t counts h v = h v
Step-AllSound b l u s t (logs m) h v = h v
Step-AllSound b l u s t (tells frame) h v = h v
Step-AllSound b l u s t (signs_in k blob ttl) h v = h v
