-- ===== src/Api/Tape/Cursor.antt =====
-- The tape from a cursor on, and where a full page of it ends: the arithmetic of the pages that
-- src/tape_service/api/tape.py cuts.
use s3p_tape_service.Prelude.{
  ℕ, zero, suc, ◌≤◌, ◌<◌, ◌≡◌, ◌≢◌, refl, ap, sym, subst, ◌∙◌, Bool, true, false, if◌then◌else◌,
  Option, none, some, [], ◌∷◌, ◌++◌, ◌==◌, ltb, arith, All, All-map, Bool-cases, inl, inr, length,
  take, keep_if, last?, drop, not,
}
use s3p_tape_service.Store.Tape.View.{Tape, IsTape, remove_doc}
use s3p_tape_service.Store.Tape.Operations.{page}
use s3p_tape_service.Store.Tape.Pages.{keep_if-IsTape}
use s3p_tape_service.Api.Tape.Sweep.{without}

-- What is left of a tape after a cursor.
abbrev pub rest_of : Tape → Option ℕ → Tape
rest_of t none = t
rest_of t (some after) = keep_if (λ e. ltb after e.0) t

pub page-rest :
    (t : Tape) (after : Option ℕ) (n : ℕ) → 0 < n → page t after n ≡ take n (rest_of t after)
page-rest t none n h = ground arith
page-rest t (some after) n h = refl

keep_if-All : (q : ℕ) (z : Tape) → All (λ e. q < e.0) z → keep_if (λ e. ltb q e.0) z ≡ z
keep_if-All q [] h = refl
keep_if-All q (e ∷ z) h = ground (arith, keep_if-All q z h.1)

keep_if-keep_if :
    (p q : ℕ) (t : Tape)
    → q ≤ p
    → keep_if (λ e. ltb p e.0) (keep_if (λ e. ltb q e.0) t) ≡ keep_if (λ e. ltb p e.0) t
keep_if-keep_if p q [] h = refl
keep_if-keep_if p q (e ∷ t) h = ground (arith, keep_if-keep_if p q t h)

-- Where a full page of a tape ends: at the position `at`, above which lies what the page leaves.
pub record Cut (n : ℕ) (z : Tape) : Type 0 where
  pub at : ℕ
  pub doc : ℕ
  pub last : last? (take n z) ≡ some (at, doc)
  pub left : keep_if (λ e. ltb at e.0) z ≡ drop n z
  pub above : (x : ℕ) → All (λ e. x < e.0) z → x < at

pub cut : (n : ℕ) (z : Tape) → IsTape z → length (take (suc n) z) ≡ suc n → Cut (suc n) z
cut n [] h len = absurd (omega arith)
cut zero ((q, d) ∷ z) h len = record {
  at = q;
  doc = d;
  last = refl;
  left = ground (arith, keep_if-All q z (All-map _ _ (λ e a. a.0) z h.0));
  above = λ x a. a.0;
}
cut (suc n) ((q, d) ∷ []) h len = absurd (omega arith)
cut (suc n) ((q, d) ∷ (e ∷ z)) h len =
    let c = cut n (e ∷ z) h.1 (omega arith) in
    let above_q : q < c.at = c.above q (All-map _ _ (λ y a. a.0) (e ∷ z) h.0) in
    record {
      at = c.at;
      doc = c.doc;
      last = c.last;
      left = ground (arith, c.left);
      above = λ x a. c.above x a.1;
    }

pub rest_of-IsTape : (t : Tape) (after : Option ℕ) → IsTape t → IsTape (rest_of t after)
rest_of-IsTape t none h = h
rest_of-IsTape t (some after) h = keep_if-IsTape (λ e. ltb after e.0) t h

kept-above : (q : ℕ) (t : Tape) → All (λ e. q < e.0) (keep_if (λ e. ltb q e.0) t)
kept-above q [] = tt
kept-above q (e ∷ t) = elim (Bool-cases (ltb q e.0)) [
  | inl high ↦ rw high (ground arith, kept-above q t)
  | inr low ↦ rw low (kept-above q t)
]

pub rest-after :
    (t : Tape) (after : Option ℕ) (n : ℕ)
    → (c : Cut n (rest_of t after)) → rest_of t (some c.at) ≡ drop n (rest_of t after)
rest-after t none n c = c.left
rest-after t (some after) n c =
    sym (keep_if-keep_if c.at after t (omega (arith, c.above after (kept-above after t)))) ∙ c.left

All-drop : (P : ℕ × ℕ → Type 0) (n : ℕ) (z : Tape) → All P z → All P (drop n z)
All-drop P zero z h = h
All-drop P (suc n) [] h = tt
All-drop P (suc n) (e ∷ z) h = All-drop P n z h.1

-- No document of a page stands behind it.
pub take-drop-distinct :
    (n : ℕ) (z : Tape) → IsTape z → All (λ e. All (λ f. e.1 ≢ f.1) (drop n z)) (take n z)
take-drop-distinct zero z h = tt
take-drop-distinct (suc n) [] h = tt
take-drop-distinct (suc n) (e ∷ z) h =
    (All-drop (λ f. e.1 ≢ f.1) n z (All-map _ _ (λ f a. a.1) z h.0), take-drop-distinct n z h.1)

keep_if-remove_doc :
    (at d : ℕ) (t : Tape)
    → All (λ f. d ≢ f.1) (keep_if (λ e. ltb at e.0) t)
    → keep_if (λ e. ltb at e.0) (remove_doc d t) ≡ keep_if (λ e. ltb at e.0) t
keep_if-remove_doc at d [] h = refl
keep_if-remove_doc at d ((p, e) ∷ t) h = elim (Bool-cases (ltb at p)) [
  | inl high ↦
      let kept : All (λ f. d ≢ f.1) ((p, e) ∷ keep_if (λ e. ltb at e.0) t) =
        subst
          (λ b.
            All (λ f. d ≢ f.1)
              (if b then (p, e) ∷ keep_if (λ e. ltb at e.0) t else keep_if (λ e. ltb at e.0) t))
          high h in
      ground (arith, kept.0, keep_if-remove_doc at d t kept.1)
  | inr low ↦
      let kept : All (λ f. d ≢ f.1) (keep_if (λ e. ltb at e.0) t) =
        subst
          (λ b.
            All (λ f. d ≢ f.1)
              (if b then (p, e) ∷ keep_if (λ e. ltb at e.0) t else keep_if (λ e. ltb at e.0) t))
          low h in
      ground (arith, keep_if-remove_doc at d t kept)
]

-- What is swept off a page leaves the tape behind the page as it was.
pub keep_if-without :
    (at : ℕ) (swept : ℕ → Bool) (z t : Tape)
    → All (λ e. All (λ f. e.1 ≢ f.1) (keep_if (λ e. ltb at e.0) t)) z
    → keep_if (λ e. ltb at e.0) (without swept z t) ≡ keep_if (λ e. ltb at e.0) t
keep_if-without at swept [] t h = refl
keep_if-without at swept ((p, d) ∷ z) t h = elim (Bool-cases (swept d)) [
  | inl out ↦
      let same = keep_if-remove_doc at d t h.0 in
      rw out (
        keep_if-without at swept z (remove_doc d t)
          (subst (λ y. All (λ e. All (λ f. e.1 ≢ f.1) y) z) (sym same) h.1)
        ∙ same)
  | inr stays ↦ rw stays (keep_if-without at swept z t h.1)
]

pub without-append :
    (swept : ℕ → Bool) (y z t : Tape)
    → without swept (y ++ z) t ≡ without swept z (without swept y t)
without-append swept [] z t = refl
without-append swept ((p, d) ∷ y) z t =
    without-append swept y z (if swept d then remove_doc d t else t)

-- A document before the tape `t` is not in it; sweeping the rows of `t` keeps it in front.
without-cons :
    (swept : ℕ → Bool) (z : Tape) (p d : ℕ) (t : Tape)
    → All (λ e. d ≢ e.1) z
    → without swept z ((p, d) ∷ t) ≡ (p, d) ∷ without swept z t
without-cons swept [] p d t h = refl
without-cons swept ((q, c) ∷ z) p d t h = elim (Bool-cases (swept c)) [
  | inl out ↦
      let other : (c == d) ≡ false = ground (arith, h.0) in
      rw (out, other) (without-cons swept z p d (remove_doc c t) h.1)
  | inr stays ↦ rw stays (without-cons swept z p d t h.1)
]

-- Sweeping all rows of a tape leaves the entries that are not to be swept.
pub without-all :
    (swept : ℕ → Bool) (t : Tape) → IsTape t → without swept t t ≡ keep_if (λ e. not (swept e.1)) t
without-all swept [] h = refl
without-all swept ((p, d) ∷ t) h = elim (Bool-cases (swept d)) [
  | inl out ↦ let same : (d == d) ≡ true = ground arith in rw (out, same) (without-all swept t h.1)
  | inr stays ↦ rw stays (
      without-cons swept t p d t (All-map _ _ (λ e a. a.1) t h.0)
      ∙ ap (λ x. (p, d) ∷ x) (without-all swept t h.1))
]

pub end_of_full : (n : ℕ) (z : Tape) → 0 < n → IsTape z → length (take n z) ≡ n → Cut n z
end_of_full zero z positive h len = absurd (omega arith)
end_of_full (suc k) z positive h len = cut k z h len

pub take-nil : (n : ℕ) (z : Tape) → 0 < n → take n z ≡ [] → z ≡ []
take-nil zero z positive e = absurd (omega arith)
take-nil (suc n) [] positive e = refl
take-nil (suc n) (x ∷ z) positive e = cc
