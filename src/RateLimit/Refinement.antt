-- ===== src/RateLimit/Refinement.antt =====
-- The bucket answers as a log of all granted calls would that counts the window anew each time.
use native.Mathlib.Nat.{le_trans}
use s3p_tape_service.Prelude.{
  ℕ, ◌+◌, ◌≤◌, ◌≡◌, refl, Bool, List, [], ◌∷◌, ◌++◌, leb, ltb, length, ap, arith, if◌then◌else◌,
  Bool-cases, true, false, inl, inr, ◌∙◌, sym, All, All-append, All-map,
}
use s3p_tape_service.Prelude.Text.{Text, text_eq, text_eq_iff}
use s3p_tape_service.RateLimit.{TokenBucket, init, prune, allow, run}
use s3p_tape_service.RateLimit.Window.{Monotone}

-- Every granted call so far, oldest first, by key.
abbrev pub History : Type 0
History = Text → List ℕ

-- How many granted times are at most `w` old.
abbrev pub recent : ℕ → ℕ → List ℕ → ℕ
recent w now [] = 0
recent w now (x ∷ xs) = (if leb now (x + w) then 1 else 0) + recent w now xs

abbrev pub note : History → Text → ℕ → History
note h key now k = if text_eq k key then h key ++ now ∷ [] else h k

-- Grant a call exactly when fewer than `c` grants of its key are recent.
abbrev pub log_run : ℕ → ℕ → History → List (Text × ℕ) → List Bool
log_run c w h [] = []
log_run c w h ((key, now) ∷ calls) =
    let ok = ltb (recent w now (h key)) c in
    ok ∷ log_run c w (if ok then note h key now else h) calls

abbrev IsSorted : List ℕ → Type 0
IsSorted [] = Unit
IsSorted (x ∷ xs) = All (λ y. x ≤ y) xs × IsSorted xs

IsSorted-append :
    (now : ℕ) (xs : List ℕ) → IsSorted xs → All (λ x. x ≤ now) xs → IsSorted (xs ++ now ∷ [])
IsSorted-append now [] s a = (tt, tt)
IsSorted-append now (x ∷ xs) s a =
    (All-append (λ y. x ≤ y) xs (now ∷ []) s.0 (a.0, tt), IsSorted-append now xs s.1 a.1)

prune-prune : (w m now : ℕ) (q : List ℕ) → m ≤ now → prune w now (prune w m q) ≡ prune w now q
unfolding prune
prune-prune w m now [] h = refl
prune-prune w m now (x ∷ q) h = ground (arith, prune-prune w m now q h)

prune-append : (w now : ℕ) (q : List ℕ) → prune w now (q ++ now ∷ []) ≡ prune w now q ++ now ∷ []
unfolding prune
prune-append w now [] = ground arith
prune-append w now (x ∷ q) = ground (arith, prune-append w now q)

recent-All :
    (w now x : ℕ) (xs : List ℕ) → All (λ y. x ≤ y) xs → now ≤ x + w → recent w now xs ≡ length xs
recent-All w now x [] a h = refl
recent-All w now x (y ∷ xs) a h = ground (arith, recent-All w now x xs a.1 h)

length-prune : (w now : ℕ) (q : List ℕ) → IsSorted q → length (prune w now q) ≡ recent w now q
unfolding prune
length-prune w now [] s = refl
length-prune w now (x ∷ q) s = ground (arith, length-prune w now q s.1, recent-All w now x q s.0)

-- The deque of a key is its history, pruned at some time that is not after `m`.
record Tracks (w m : ℕ) (q h : List ℕ) : Type 0 where
  bound : ℕ
  bound_le : bound ≤ m
  pruned : q ≡ prune w bound h
  sorted : IsSorted h
  past : All (λ x. x ≤ m) h

Tracks-later : (w m now : ℕ) (q h : List ℕ) → m ≤ now → Tracks w m q h → Tracks w now q h
Tracks-later w m now q h le r = record {
  bound = r.bound;
  bound_le = le_trans r.bound_le le;
  pruned = r.pruned;
  sorted = r.sorted;
  past = All-map (λ x. x ≤ m) (λ x. x ≤ now) (λ x p. le_trans p le) h r.past;
}

Tracks-prune :
    (w m now : ℕ) (q h : List ℕ) → m ≤ now → Tracks w m q h → Tracks w now (prune w now q) h
Tracks-prune w m now q h le r = record {
  bound = now;
  bound_le = omega arith;
  pruned = ap (prune w now) r.pruned ∙ prune-prune w r.bound now h (le_trans r.bound_le le);
  sorted = r.sorted;
  past = (Tracks-later w m now q h le r).past;
}

Tracks-append :
    (w now : ℕ) (q h : List ℕ)
    → q ≡ prune w now h
    → Tracks w now q h
    → Tracks w now (q ++ now ∷ []) (h ++ now ∷ [])
Tracks-append w now q h e r = record {
  bound = now;
  bound_le = omega arith;
  pruned = ap (λ (l : List ℕ). l ++ now ∷ []) e ∙ sym (prune-append w now h);
  sorted = IsSorted-append now h r.sorted r.past;
  past = All-append (λ x. x ≤ now) h (now ∷ []) r.past (omega arith, tt);
}

module _ (c w : ℕ) where
  abbrev bucket : (Text → List ℕ) → TokenBucket
  bucket ev = record { capacity = c; window = w; events = ev }

  abbrev put : (Text → List ℕ) → Text → List ℕ → Text → List ℕ
  put ev key q k = if text_eq k key then q else ev k

  denied :
      (ev : Text → List ℕ) (key : Text) (now : ℕ)
      → leb c (length (prune w now (ev key))) ≡ true
      → allow (bucket ev) key now ≡ (bucket (put ev key (prune w now (ev key))), false)
  unfolding allow
  denied ev key now full = rw full

  allowed :
      (ev : Text → List ℕ) (key : Text) (now : ℕ)
      → leb c (length (prune w now (ev key))) ≡ false
      → allow (bucket ev) key now ≡ (bucket (put ev key (prune w now (ev key) ++ now ∷ [])), true)
  unfolding allow
  allowed ev key now room = rw room

  module _ (ev h : Text → List ℕ) (m : ℕ) (key : Text) (now : ℕ) (le : m ≤ now)
      (r : (k : Text) → Tracks w m (ev k) (h k)) where
    put_denied : (k : Text) → Tracks w now (put ev key (prune w now (ev key)) k) (h k)
    put_denied k = elim (Bool-cases (text_eq k key)) [
      | inl same ↦
          let e : k ≡ key = (text_eq_iff k key).0 same in
          rw same (rw e (Tracks-prune w m now (ev key) (h key) le (r key)))
      | inr other ↦ rw other (Tracks-later w m now (ev k) (h k) le (r k))
    ]

    pruned_now : prune w now (ev key) ≡ prune w now (h key)
    pruned_now =
        ap (prune w now) (r key).pruned
        ∙ prune-prune w (r key).bound now (h key) (le_trans (r key).bound_le le)

    put_allowed :
        (k : Text)
        → Tracks w now (put ev key (prune w now (ev key) ++ now ∷ []) k) (note h key now k)
    put_allowed k = elim (Bool-cases (text_eq k key)) [
      | inl same ↦ rw same (
          Tracks-append w now (prune w now (ev key)) (h key) pruned_now
            (Tracks-prune w m now (ev key) (h key) le (r key)))
      | inr other ↦ rw other (Tracks-later w m now (ev k) (h k) le (r k))
    ]

    length-recent : length (prune w now (ev key)) ≡ recent w now (h key)
    length-recent = ap length pruned_now ∙ length-prune w now (h key) (r key).sorted

  run-log_run_from :
      (ev : Text → List ℕ) (h : History) (m : ℕ) (calls : List (Text × ℕ))
      → ((k : Text) → Tracks w m (ev k) (h k))
      → Monotone m calls
      → run (bucket ev) calls ≡ log_run c w h calls
  unfolding run
  run-log_run_from ev h m [] r mono = refl
  run-log_run_from ev h m ((key, now) ∷ calls) r mono =
      elim (Bool-cases (leb c (length (prune w now (ev key))))) [
        | inl full ↦
            let no_room : ltb (recent w now (h key)) c ≡ false =
              ground (arith, length-recent ev h m key now mono.0 r) in
            rw (denied ev key now full, no_room)
              (ap (◌∷◌ false) (
                run-log_run_from (put ev key (prune w now (ev key))) h now calls
                  (put_denied ev h m key now mono.0 r) mono.1))
        | inr free ↦
            let room : ltb (recent w now (h key)) c ≡ true =
              ground (arith, length-recent ev h m key now mono.0 r) in
            rw (allowed ev key now free, room)
              (ap (◌∷◌ true) (
                run-log_run_from (put ev key (prune w now (ev key) ++ now ∷ [])) (note h key now)
                  now calls (put_allowed ev h m key now mono.0 r) mono.1))
      ]

-- A fresh bucket answers every sequence of calls, along which the clock does not run backwards, as
-- the log does: a call is granted exactly when fewer than `capacity` calls of its key were granted
-- within the last `window` ticks, both ends included.
pub run-log_run :
    (c w m : ℕ) (calls : List (Text × ℕ))
    → Monotone m calls
    → run (init c w) calls ≡ log_run c w (λ _. []) calls
unfolding init
run-log_run c w m calls mono =
    run-log_run_from c w (λ _. []) (λ _. []) m calls (λ k. Tracks_nil) mono
  where
    Tracks_nil : Tracks w m [] []
    Tracks_nil = record {
      bound = 0;
      bound_le = omega arith;
      pruned = unfold prune in refl;
      sorted = tt;
      past = tt;
    }
