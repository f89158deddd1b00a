-- ===== src/RateLimit.antt =====
-- src/tape_service/auth/rate_limit.py: the login throttle. Times are the readings of
-- `time.monotonic()` in whole ticks, an argument of each call.
pub mod Window
pub mod Refinement
use s3p_tape_service.Prelude.{
  ℕ, ◌+◌, Bool, true, false, List, [], ◌∷◌, ◌++◌, ltb, leb, length, if◌then◌else◌,
}
use s3p_tape_service.Prelude.Text.{Text, text_eq}

-- `_events` is a total function: `setdefault` gives a missing key the empty deque.
pub record TokenBucket : Type 0 where
  pub capacity : ℕ
  pub window : ℕ
  pub events : Text → List ℕ

-- `__init__`
unfoldable pub init : ℕ → ℕ → TokenBucket
init capacity window = record { capacity = capacity; window = window; events = λ _. [] }

-- `while q and q[0] < cutoff: q.popleft()`. The test `q[0] < now - window` is written without the
-- subtraction, since `now - window` may be negative.
unfoldable pub prune : ℕ → ℕ → List ℕ → List ℕ
prune window now [] = []
prune window now (t ∷ q) = if ltb (t + window) now then prune window now q else t ∷ q

abbrev pub set_events : TokenBucket → Text → List ℕ → TokenBucket
set_events b key q = record b { events = λ k. if text_eq k key then q else b.events k }

unfoldable pub allow : TokenBucket → Text → ℕ → TokenBucket × Bool
allow b key now =
    let q = prune b.window now (b.events key) in
    if leb b.capacity (length q)
    then (set_events b key q, false)
    else (set_events b key (q ++ now ∷ []), true)

-- The answers to a sequence of calls, each with its key and its reading of the clock.
pub run : TokenBucket → List (Text × ℕ) → List Bool
run b [] = []
run b ((key, now) ∷ calls) = let (b', ok) = allow b key now in ok ∷ run b' calls
