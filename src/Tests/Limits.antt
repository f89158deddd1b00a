-- ===== src/Tests/Limits.antt =====
-- The login throttle at concrete inputs.
use s3p_tape_service.Prelude.{ℕ, ◌≤◌, ◌≡◌, List, [], ◌∷◌, ◌++◌, arith}
use s3p_tape_service.Prelude.Text.{Text, codes}
use s3p_tape_service.RateLimit.{TokenBucket, init, run}
use s3p_tape_service.RateLimit.Window.{Monotone, granted, count_window, granted-count_window}
use s3p_tape_service.RateLimit.Refinement.{log_run, run-log_run}

abbrev calls : List (Text × ℕ)
calls = (codes "a", 1) ∷ (codes "a", 2) ∷ (codes "b", 2) ∷ (codes "a", 3) ∷ (codes "a", 12) ∷ []

calls-Monotone : Monotone 0 calls
calls-Monotone = (omega arith, (omega arith, (omega arith, (omega arith, (omega arith, tt)))))

run-log_run_example : run (init 2 10) calls ≡ log_run 2 10 (λ _. []) calls
run-log_run_example = run-log_run 2 10 0 calls calls-Monotone

-- A grant at 2 is still in the deque.
abbrev bucket : TokenBucket
bucket = record { capacity = 2; window = 10; events = λ _. 2 ∷ [] }

granted-count_window_example : count_window 10 12 (2 ∷ [] ++ granted (codes "a") bucket calls) ≤ 2
granted-count_window_example =
    granted-count_window (codes "a") bucket 0 12 calls calls-Monotone (omega arith)
