-- ===== src/Worker/Generator/Phases.antt =====
-- The phases of a run of src/tape_service/worker/generator.py: what a worker may do before it asks
-- for the lock of its user, while it holds it, and after it gave it back.
use s3p_tape_service.Prelude.{ℕ, ◌≡◌, Bool, true, false, some, List, [], ◌∷◌}
use s3p_tape_service.Prelude.Text.{Text}
use s3p_tape_service.Redis.{Keyspace, reference}
use s3p_tape_service.Settings.{Settings}
use s3p_tape_service.Stdlib.{Stdlib}
use s3p_tape_service.Errors.{ok}
use s3p_tape_service.Keys.{cfg_key, cfg_sources_key}
use s3p_tape_service.Store.Events.{publish, make_lock_released}
use s3p_tape_service.Store.Lock.{acquire, release}
use s3p_tape_service.Store.Tape.Config.{TapeConfig, sorted_ids, config_of, clear_dirty}
use s3p_tape_service.Store.Tape.Entries.{delete_all_entries}
use s3p_tape_service.Service.Steps.{Step}

pub data Phase : Type 0 where
  outside : Phase  -- the lock has not been asked for
  holding : Phase  -- the lock was taken and has not been given back
  returned : Phase  -- the lock was given back
  over : Phase

module _ (lib : Stdlib) (st : Settings) (token : Text) (now u : ℕ) (dirty : Bool) where
  -- One move of the worker, from the keyspace `s`: what the phase allows, and the phase after it.
  -- Commands on the user's tape, runs and frames are allowed to a worker that holds the lock; without
  -- it a worker may only empty the tape of a dirty user that has no sources.
  pub data Move (s : Keyspace) : Phase → Keyspace → Phase → Type 0 where
    idles :
        ((cfg : TapeConfig) (source : ℕ) (sources : List ℕ)
          → config_of lib u (s.hashes (cfg_key u)) ≡ ok (some cfg)
          → sorted_ids (s.sets (cfg_sources_key u)) ≡ ok (source ∷ sources)
          → ⊥)
        → Move s outside s over
    clears :
        dirty ≡ true
        → sorted_ids (s.sets (cfg_sources_key u)) ≡ ok []
        → Move s outside (clear_dirty reference u (delete_all_entries reference u s).0).0 over
    takes :
        (acquire reference st token u s).1 ≡ true
        → Move s outside (acquire reference st token u s).0 holding
    misses : (acquire reference st token u s).1 ≡ false → Move s outside s over
    works :
        {t : Keyspace}
        → Step false st.worker_advisory_lock_ttl_seconds u s t
        → Move s holding t holding
    returns : Move s holding (release reference u token s).0 returned
    tells : Move s returned (publish reference lib u (make_lock_released lib now u) s).0 over

  pub data Moves (s : Keyspace) (p : Phase) : Keyspace → Phase → Type 0 where
    start : Moves s p s p
    later : {t w : Keyspace} {q q' : Phase} → Moves s p t q → Move t q w q' → Moves s p w q'

  pub append :
      {s t : Keyspace} {p q : Phase} {w : Keyspace} {q' : Phase}
      → Moves s p t q
      → Moves t q w q'
      → Moves s p w q'
  append ms start = ms
  append ms (later ns m) = later (append ms ns) m
