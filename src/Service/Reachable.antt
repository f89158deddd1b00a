-- ===== src/Service/Reachable.antt =====
-- The states that a server can be in at any moment, between two commands of any requests.
use s3p_tape_service.Prelude.{true, ℕ, ◌≡◌, [], Option, none}
use s3p_tape_service.Errors.{ok}
use s3p_tape_service.Keys.{entries_key, lock_key}
use s3p_tape_service.Redis.{Keyspace, reference}
use s3p_tape_service.Settings.{Settings}
use s3p_tape_service.Stdlib.{Stdlib}
use s3p_tape_service.Database.{Database}
use s3p_tape_service.Store.Tape.Entries.{list_entries_page}
use s3p_tape_service.Store.Tape.View.{Tape}
use s3p_tape_service.Store.Tape.Operations.{page}
use s3p_tape_service.Store.Tape.Laws.{list_entries_page-tape}
use s3p_tape_service.Service.Steps.{Step, Steps, done, more}
use s3p_tape_service.Service.Operations.{Operation, perform, perform-Steps}
use s3p_tape_service.Service.Ordered.{IsOrderedTape, AllSound, Step-AllSound}

-- It starts without any tape and any lock; then any user's commands follow, in any order.
pub data Reachable (l : ℕ) : Keyspace → Type 0 where
  begins :
      (s : Keyspace)
      → ((v : ℕ) → s.zsets (entries_key v) ≡ [])
      → ((v : ℕ) → s.strings (lock_key v) ≡ none)
      → Reachable l s
  follows : (u : ℕ) {s t : Keyspace} → Reachable l s → Step true l u s t → Reachable l t

pub Reachable-AllSound : (l : ℕ) (s : Keyspace) → Reachable l s → AllSound s
Reachable-AllSound l s (begins _ h free) v = ([], h v, tt)
Reachable-AllSound l s (follows u {s = r} before st) v =
    Step-AllSound true l u r s st (Reachable-AllSound l r before) v

Steps-Reachable : (l u : ℕ) (s t : Keyspace) → Steps true l u s t → Reachable l s → Reachable l t
Steps-Reachable l u s t done h = h
Steps-Reachable l u s t (more {t = r} ps st) h = follows u (Steps-Reachable l u s r ps h) st

-- What every operation leaves behind, returned or raised, is reachable again.
pub perform-Reachable :
    (lib : Stdlib) (st : Settings) (pg : Database) (now u : ℕ) (op : Operation pg) (s : Keyspace)
    → Reachable st.worker_advisory_lock_ttl_seconds s
    → Reachable st.worker_advisory_lock_ttl_seconds (perform lib st pg now u op s)
perform-Reachable lib st pg now u op s h =
    Steps-Reachable st.worker_advisory_lock_ttl_seconds u s (perform lib st pg now u op s)
      (perform-Steps lib st pg now u op s) h

-- In every state that the commands of any number of requests, worker runs and notifications can
-- lead to, however they interleave, reading any user's tape, from any position and with any limit,
-- succeeds and changes nothing; it is a page of one list of (position, document id) pairs in
-- which positions never decrease and no document stands twice.
pub list_entries_page-Reachable :
    (l : ℕ) (s : Keyspace)
    → Reachable l s
    → (v : ℕ)
    → (t : Tape) × IsOrderedTape t
      × ((after : Option ℕ) (limit : ℕ)
          → list_entries_page reference v after limit s ≡ (s, ok (page t after limit)))
list_entries_page-Reachable l s h v =
    let (t, same, ordered) = Reachable-AllSound l s h v in
    (t, ordered, λ after limit. list_entries_page-tape s v t after limit same)
