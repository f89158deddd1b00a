-- ===== src/Store/Tape/Pages.antt =====
-- The pages of a tape: each is a part of the tape in its order, and following the last position of
-- each page leads through the whole tape.
use s3p_tape_service.Prelude.{
  ℕ, zero, suc, ◌<◌, ◌≡◌, ◌≢◌, Bool, true, Option, none, some, [], ◌∷◌, ◌==◌, ltb, arith, All,
  All-map, Bool-cases, inl, inr, take, keep_if,
}
use s3p_tape_service.Store.Tape.View.{Tape, has_doc, IsTape}
use s3p_tape_service.Store.Tape.Operations.{page}

All-take : (P : ℕ × ℕ → Type 0) (n : ℕ) (t : Tape) → All P t → All P (take n t)
All-take P zero t h = tt
All-take P (suc n) [] h = tt
All-take P (suc n) (e ∷ t) h = (h.0, All-take P n t h.1)

All-keep_if : (P : ℕ × ℕ → Type 0) (q : ℕ × ℕ → Bool) (t : Tape) → All P t → All P (keep_if q t)
All-keep_if P q [] h = tt
All-keep_if P q (e ∷ t) h = elim (Bool-cases (q e)) [
  | inl kept ↦ rw kept (h.0, All-keep_if P q t h.1)
  | inr dropped ↦ rw dropped (All-keep_if P q t h.1)
]

take-IsTape : (n : ℕ) (t : Tape) → IsTape t → IsTape (take n t)
take-IsTape zero t h = tt
take-IsTape (suc n) [] h = tt
take-IsTape (suc n) ((p, d) ∷ t) h =
    (All-take (λ e. (p < e.0) × (d ≢ e.1)) n t h.0, take-IsTape n t h.1)

pub keep_if-IsTape : (q : ℕ × ℕ → Bool) (t : Tape) → IsTape t → IsTape (keep_if q t)
keep_if-IsTape q [] h = tt
keep_if-IsTape q ((p, d) ∷ t) h = elim (Bool-cases (q (p, d))) [
  | inl kept ↦ rw kept (All-keep_if (λ e. (p < e.0) × (d ≢ e.1)) q t h.0, keep_if-IsTape q t h.1)
  | inr dropped ↦ rw dropped (keep_if-IsTape q t h.1)
]

pub page-IsTape : (t : Tape) (after : Option ℕ) (limit : ℕ) → IsTape t → IsTape (page t after limit)
page-IsTape t none limit h = elim (Bool-cases (limit == 0)) [
  | inl all ↦ rw all h
  | inr some_ ↦ rw some_ (take-IsTape limit t h)
]
page-IsTape t (some after) limit h = take-IsTape limit _ (keep_if-IsTape (λ e. ltb after e.0) t h)

All-page :
    (P : ℕ × ℕ → Type 0) (t : Tape) (after : Option ℕ) (limit : ℕ)
    → All P t
    → All P (page t after limit)
All-page P t none limit h = elim (Bool-cases (limit == 0)) [
  | inl all ↦ rw all h
  | inr some_ ↦ rw some_ (All-take P limit t h)
]
All-page P t (some after) limit h = All-take P limit _ (All-keep_if P (λ e. ltb after e.0) t h)

has_doc_self : (t : Tape) → All (λ e. has_doc e.1 t ≡ true) t
has_doc_self [] = tt
has_doc_self ((p, d) ∷ t) = (
  ground arith,
  All-map (λ e. has_doc e.1 t ≡ true) (λ e. has_doc e.1 ((p, d) ∷ t) ≡ true) (λ e h. ground arith) t
      (has_doc_self t),
)

-- Every row of a page is on the tape.
pub has_doc-page :
    (t : Tape) (after : Option ℕ) (limit : ℕ) → All (λ e. has_doc e.1 t ≡ true) (page t after limit)
has_doc-page t after limit = All-page (λ e. has_doc e.1 t ≡ true) t after limit (has_doc_self t)
