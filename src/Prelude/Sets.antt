-- ===== src/Prelude/Sets.antt =====
-- Python sets of numbers as lists without duplicates, and what `sorted` makes of them.
use s3p_tape_service.Prelude.{
  ℕ, ◌<◌, ◌≡◌, refl, ◌∙◌, Bool, false, ◌||◌, ◌&&◌, List, [], ◌∷◌, ◌++◌, ◌==◌, leb, arith, All,
  Bool-cases, inl, inr, contains, keep_if,
}
use s3p_tape_service.Prelude.Dict.{add, add_all, insert_sorted, sorted}

-- Ascending, and so without duplicates.
abbrev pub IsAscending : List ℕ → Type 0
IsAscending [] = Unit
IsAscending (a ∷ xs) = All (λ b. a < b) xs × IsAscending xs

-- No number stands twice.
abbrev pub IsDistinct : List ℕ → Type 0
IsDistinct [] = Unit
IsDistinct (a ∷ xs) = (contains xs a ≡ false) × IsDistinct xs

pub contains-append :
    (xs ys : List ℕ) (d : ℕ) → contains (xs ++ ys) d ≡ (contains xs d || contains ys d)
contains-append [] ys d = refl
contains-append (x ∷ xs) ys d = ground (arith, contains-append xs ys d)

append-IsDistinct :
    (xs : List ℕ) (a : ℕ) → IsDistinct xs → contains xs a ≡ false → IsDistinct (xs ++ a ∷ [])
append-IsDistinct [] a h new = (refl, tt)
append-IsDistinct (x ∷ xs) a h new =
    (ground (arith, contains-append xs (a ∷ []) x), append-IsDistinct xs a h.1 (ground arith))

pub add_all-IsDistinct : (s xs : List ℕ) → IsDistinct s → IsDistinct (add_all s xs)
add_all-IsDistinct s [] h = h
add_all-IsDistinct s (a ∷ xs) h =
    add_all-IsDistinct (add a s) xs (elim (Bool-cases (contains s a)) [
      | inl old ↦ rw old h
      | inr new ↦ rw new (append-IsDistinct s a h new)
    ])

pub contains-add_all :
    (s xs : List ℕ) (d : ℕ) → contains (add_all s xs) d ≡ (contains s d || contains xs d)
contains-add_all s [] d = ground arith
contains-add_all s (a ∷ xs) d =
    ground (arith, contains-add_all (add a s) xs d, contains-append s (a ∷ []) d)

contains-insert_sorted :
    (a : ℕ) (xs : List ℕ) (d : ℕ) → contains (insert_sorted a xs) d ≡ ((d == a) || contains xs d)
unfolding insert_sorted
contains-insert_sorted a [] d = refl
contains-insert_sorted a (x ∷ xs) d = ground (arith, contains-insert_sorted a xs d)

pub contains-sorted : (xs : List ℕ) (d : ℕ) → contains (sorted xs) d ≡ contains xs d
unfolding sorted
contains-sorted [] d = refl
contains-sorted (x ∷ xs) d =
    contains-insert_sorted x (sorted xs) d ∙ ground (arith, contains-sorted xs d)

All-insert_sorted :
    (P : ℕ → Type 0) (a : ℕ) (xs : List ℕ) → P a → All P xs → All P (insert_sorted a xs)
unfolding insert_sorted
All-insert_sorted P a [] p h = (p, tt)
All-insert_sorted P a (x ∷ xs) p h = elim (Bool-cases (leb a x)) [
  | inl low ↦ rw low (p, h)
  | inr high ↦ rw high (h.0, All-insert_sorted P a xs p h.1)
]

All-lt_trans : (a b : ℕ) (xs : List ℕ) → a < b → All (λ c. b < c) xs → All (λ c. a < c) xs
All-lt_trans a b [] h k = tt
All-lt_trans a b (x ∷ xs) h k = (omega (arith, k.0), All-lt_trans a b xs h k.1)

insert_sorted-IsAscending :
    (a : ℕ) (xs : List ℕ)
    → IsAscending xs
    → contains xs a ≡ false
    → IsAscending (insert_sorted a xs)
unfolding insert_sorted
insert_sorted-IsAscending a [] h new = (tt, tt)
insert_sorted-IsAscending a (x ∷ xs) h new = elim (Bool-cases (leb a x)) [
  | inl low ↦ let below : a < x = ground arith in rw low ((below, All-lt_trans a x xs below h.0), h)
  | inr high ↦ rw high (
    All-insert_sorted (λ c. x < c) a xs (ground arith) h.0,
    insert_sorted-IsAscending a xs h.1 (ground arith),
  )
]

pub sorted-IsAscending : (xs : List ℕ) → IsDistinct xs → IsAscending (sorted xs)
unfolding sorted
sorted-IsAscending [] h = tt
sorted-IsAscending (x ∷ xs) h =
    insert_sorted-IsAscending x (sorted xs) (sorted-IsAscending xs h.1) (contains-sorted xs x ∙ h.0)

pub contains-keep_if :
    (f : ℕ → Bool) (ids : List ℕ) (i : ℕ) → contains (keep_if f ids) i ≡ (contains ids i && f i)
contains-keep_if f [] i = refl
contains-keep_if f (j ∷ ids) i = elim (Bool-cases (f j)) [
  | inl kept ↦ rw kept (ground (arith, contains-keep_if f ids i, kept))
  | inr dropped ↦ rw dropped (ground (arith, contains-keep_if f ids i, dropped))
]

pub keep_if-IsDistinct : (f : ℕ → Bool) (ids : List ℕ) → IsDistinct ids → IsDistinct (keep_if f ids)
keep_if-IsDistinct f [] h = tt
keep_if-IsDistinct f (j ∷ ids) h = elim (Bool-cases (f j)) [
  | inl kept ↦ rw kept (ground (arith, contains-keep_if f ids j, h.0), keep_if-IsDistinct f ids h.1)
  | inr dropped ↦ rw dropped (keep_if-IsDistinct f ids h.1)
]

pub insert_sorted_comm :
    (a b : ℕ) (xs : List ℕ)
    → insert_sorted a (insert_sorted b xs) ≡ insert_sorted b (insert_sorted a xs)
unfolding insert_sorted
insert_sorted_comm a b [] = ground arith
insert_sorted_comm a b (x ∷ xs) = ground (arith, insert_sorted_comm a b xs)
