-- ===== src/RateLimit/Window.antt =====
-- No window of the configured length holds more granted calls of one key than the capacity.
use s3p_tape_service.Prelude.{
  ℕ, ◌+◌, ◌≤◌, ◌<◌, ◌≡◌, refl, List, [], ◌∷◌, ◌++◌, ◌&&◌, leb, length, arith, if◌then◌else◌,
  Bool-cases, inl, inr, length-append, ap, ◌∙◌, append-nil, subst,
}
use native.Mathlib.Nat.{le_refl}
use s3p_tape_service.Prelude.Text.{Text, text_eq, text_eq_iff}
use s3p_tape_service.RateLimit.{TokenBucket, prune, allow}

-- The clock does not run backwards along the calls.
abbrev pub Monotone : ℕ → List (Text × ℕ) → Type 0
Monotone m [] = Unit
Monotone m ((_, t) ∷ calls) = (m ≤ t) × Monotone t calls

-- The time of a call of `k`, if it is a call of `key` that is granted.
abbrev pub grant_of : Text → TokenBucket → Text → ℕ → List ℕ
grant_of key b k now = if text_eq key k && (allow b k now).1 then now ∷ [] else []

-- The times of the calls of `key` that were granted.
abbrev pub granted : Text → TokenBucket → List (Text × ℕ) → List ℕ
granted key b [] = []
granted key b ((k, now) ∷ calls) = grant_of key b k now ++ granted key (allow b k now).0 calls

-- How many of the times lie in the closed window of length `w` that ends at `t`.
abbrev pub count_window : ℕ → ℕ → List ℕ → ℕ
count_window w t [] = 0
count_window w t (x ∷ xs) = (if leb x t && leb t (x + w) then 1 else 0) + count_window w t xs

count_window-append :
    (w t : ℕ) (xs ys : List ℕ)
    → count_window w t (xs ++ ys) ≡ count_window w t xs + count_window w t ys
count_window-append w t [] ys = omega arith
count_window-append w t (x ∷ xs) ys = omega (arith, count_window-append w t xs ys)

count_window-le-length : (w t : ℕ) (xs : List ℕ) → count_window w t xs ≤ length xs
count_window-le-length w t [] = omega arith
count_window-le-length w t (x ∷ xs) = ground (arith, count_window-le-length w t xs)

length-prune-le : (w now : ℕ) (q : List ℕ) → length (prune w now q) ≤ length q
unfolding prune
length-prune-le w now [] = omega arith
length-prune-le w now (x ∷ q) = ground (arith, length-prune-le w now q)

-- What `prune` drops lies in no window that ends at `now` or later.
count_window-prune :
    (w now t : ℕ) (q : List ℕ) → now ≤ t → count_window w t (prune w now q) ≡ count_window w t q
unfolding prune
count_window-prune w now t [] h = refl
count_window-prune w now t (x ∷ q) h = ground (arith, count_window-prune w now t q h)

-- One call adds to the deque what it grants, and drops what is out of reach for good.
allow-count_window :
    (key k : Text) (b : TokenBucket) (now t : ℕ)
    → now ≤ t
    → count_window b.window t ((allow b k now).0.events key)
      ≡ count_window b.window t (b.events key ++ grant_of key b k now)
unfolding allow
allow-count_window key k b now t h = elim (Bool-cases (text_eq key k)) [
  | inl same ↦
      let q : List ℕ = prune b.window now (b.events k) in
      let moved : b.events key ≡ b.events k = ap b.events ((text_eq_iff key k).0 same) in
      ground (
        arith,
        moved,
        count_window-append b.window t q (now ∷ []),
        count_window-append b.window t (b.events k) (now ∷ []),
        count_window-prune b.window now t (b.events k),
        append-nil (b.events k),
      )
  | inr other ↦ rw (other, append-nil) (ground (arith, append-nil (b.events key)))
]

allow_bounded :
    (key k : Text) (b : TokenBucket) (now : ℕ)
    → length (b.events key) ≤ b.capacity
    → length ((allow b k now).0.events key) ≤ b.capacity
unfolding allow
allow_bounded key k b now h = elim (Bool-cases (text_eq key k)) [
  | inl same ↦
      let q : List ℕ = prune b.window now (b.events k) in
      let moved : b.events key ≡ b.events k = ap b.events ((text_eq_iff key k).0 same) in
      ground (arith, moved, length-append q (now ∷ []), length-prune-le b.window now (b.events k))
  | inr other ↦ ground arith
]

allow-settings :
    (k : Text) (b : TokenBucket) (now : ℕ)
    → ((allow b k now).0.window ≡ b.window) × ((allow b k now).0.capacity ≡ b.capacity)
unfolding allow
allow-settings k b now = ground arith

granted_late :
    (key : Text) (b : TokenBucket) (m t w : ℕ) (calls : List (Text × ℕ))
    → Monotone m calls
    → t < m
    → count_window w t (granted key b calls) ≡ 0
granted_late key b m t w [] h lt = refl
granted_late key b m t w ((k, now) ∷ calls) h lt =
    count_window-append w t (grant_of key b k now) _
    ∙ ground (arith, granted_late key (allow b k now).0 now t w calls h.1)

module _ (key : Text) (w c t : ℕ) where
  granted_bounded :
      (b : TokenBucket) (m : ℕ) (calls : List (Text × ℕ))
      → b.window ≡ w
      → b.capacity ≡ c
      → Monotone m calls
      → length (b.events key) ≤ c
      → count_window w t (b.events key ++ granted key b calls) ≤ c
  granted_bounded b m [] ew ec h fits =
      rw append-nil (omega (arith, count_window-le-length w t (b.events key)))
  granted_bounded b m ((k, now) ∷ calls) ew ec h fits = elim (Bool-cases (leb now t)) [
    | inl reached ↦ omega (
      arith,
      granted_bounded b' now calls (settings.0 ∙ ew) (settings.1 ∙ ec) h.1
          (subst (λ n. length (b'.events key) ≤ n) ec (allow_bounded key k b now (rw ec fits))),
      subst (λ v. count_window v t (b'.events key) ≡ count_window v t (b.events key ++ g)) ew
          (allow-count_window key k b now t (ground arith)),
      count_window-append w t (b'.events key) rest,
      count_window-append w t (b.events key) g,
      count_window-append w t g rest,
      count_window-append w t (b.events key) (g ++ rest),
    )
    | inr early ↦ omega (
      arith,
      count_window-append w t (b.events key) (g ++ rest),
      granted_late key b now t w ((k, now) ∷ calls) (le_refl now, h.1) (ground arith),
      count_window-le-length w t (b.events key),
    )
  ]
    where
      b' : TokenBucket
      b' = (allow b k now).0

      g : List ℕ
      g = grant_of key b k now

      rest : List ℕ
      rest = granted key b' calls

      settings : (b'.window ≡ b.window) × (b'.capacity ≡ b.capacity)
      settings = allow-settings k b now

-- From a bucket whose deque is within the capacity, along calls whose clock does not run
-- backwards, every window of the configured length, wherever it ends, holds at most `capacity` of
-- the times in the deque of the key and the times granted to it.
pub granted-count_window :
    (key : Text) (b : TokenBucket) (m t : ℕ) (calls : List (Text × ℕ))
    → Monotone m calls
    → length (b.events key) ≤ b.capacity
    → count_window b.window t (b.events key ++ granted key b calls) ≤ b.capacity
granted-count_window key b m t calls = granted_bounded key b.window b.capacity t b m calls refl refl
