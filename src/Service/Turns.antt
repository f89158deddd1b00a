-- ===== src/Service/Turns.antt =====
-- src/tape_service/store/lock.py among everything else that happens: workers that ask for the lock of
-- one user, hold it and give it back, while time passes and the commands of all requests go on.
use s3p_tape_service.Prelude.{
  Bool, ℕ, ◌≤◌, ◌≡◌, ◌≢◌, refl, sym, true, false, Option, none, some, arith, Bool-cases, inl, inr,
}
use s3p_tape_service.Prelude.Text.{Text, str_of}
use s3p_tape_service.Keys.{
  lock_key, entries_key, lock_key-ne-entries_key, lock_key-ne-cfg_sources_key,
  lock_key-ne-session_key, lock_key-injective,
}
use s3p_tape_service.Redis.{Keyspace, reference, has_member, update}
use s3p_tape_service.Redis.Command.{is_some, live}
use s3p_tape_service.Settings.{Settings}
use s3p_tape_service.Store.Lock.{acquire, release}
use s3p_tape_service.Service.Untouched.{update_other}
use s3p_tape_service.Service.Steps.{
  Step, passes, enters, leaves, empties, configures, chooses, forgets, locks, unlocks, counts, logs,
  tells, signs_in, signs_out,
}

-- `inside` holds the workers that are in the body of `with per_user_lock(...) as got` with `got`
-- true, by their tokens, with the time on the server at which each took the lock.
pub record System : Type 0 where
  pub keyspace : Keyspace
  pub inside : Text → Option ℕ

-- What may happen next: a worker with a new token asks for the lock, and gets it or not; a worker
-- gives back its lock; or some other command for the user is carried out, or any for another user, or
-- time passes.
pub data Turn (st : Settings) (u : ℕ) (s : System) : System → Type 0 where
  takes :
      (token : Text)
      → s.inside token ≡ none
      → (acquire reference st token u s.keyspace).1 ≡ true
      → Turn st u s (record {
        keyspace = (acquire reference st token u s.keyspace).0;
        inside = update s.inside token (some s.keyspace.clock);
      })
  misses :
      (token : Text)
      → (acquire reference st token u s.keyspace).1 ≡ false
      → Turn st u s (record s { keyspace = (acquire reference st token u s.keyspace).0 })
  returns :
      (token : Text)
      → Turn st u s (record {
        keyspace = (release reference u token s.keyspace).0;
        inside = update s.inside token none;
      })
  works :
      {t : Keyspace}
      → Step false st.worker_advisory_lock_ttl_seconds u s.keyspace t
      → Turn st u s (record s { keyspace = t })
  others :
      {v : ℕ} {t : Keyspace}
      → v ≢ u
      → Step true st.worker_advisory_lock_ttl_seconds v s.keyspace t
      → Turn st u s (record s { keyspace = t })

pub data Turns (st : Settings) (u : ℕ) (s : System) : System → Type 0 where
  done : Turns st u s s
  more : {t w : System} → Turns st u s t → Turn st u t w → Turns st u s w

-- A command that is not about the lock of the user leaves the lock as it is, and the clock does not go back.
abbrev IsLater : ℕ → Keyspace → Keyspace → Type 0
IsLater u s t = (t.strings (lock_key u) ≡ s.strings (lock_key u)) × (s.clock ≤ t.clock)

pub Step-IsLater :
    (b : Bool) (l u v : ℕ) → (b ≡ true → v ≢ u) → (s t : Keyspace) → Step b l v s t → IsLater u s t
Step-IsLater b l u v ne s t (locks e token) =
    elim (Bool-cases (is_some (live s.clock (s.strings (lock_key v))))) [
      | inl held ↦ rw held (refl, omega arith)
      | inr free ↦ rw free (
        update_other s.strings _ _ _ (λ same. ne e (sym (lock_key-injective u v same))),
        omega arith,
      )
    ]
Step-IsLater b l u v ne s t (unlocks e) =
    (update_other s.strings _ _ _ (λ same. ne e (sym (lock_key-injective u v same))), omega arith)
Step-IsLater b l u v ne s t (signs_in k blob ttl) =
    (update_other s.strings _ _ _ (lock_key-ne-session_key u k), omega arith)
Step-IsLater b l u v ne s t (signs_out k) =
    (update_other s.strings _ _ _ (lock_key-ne-session_key u k), omega arith)
Step-IsLater b l u v ne s t empties =
    (update_other s.strings _ _ _ (lock_key-ne-entries_key u v), omega arith)
Step-IsLater b l u v ne s t forgets =
    (update_other s.strings _ _ _ (lock_key-ne-cfg_sources_key u v), omega arith)
Step-IsLater b l u v ne s t (enters d p) =
    elim (Bool-cases (has_member (str_of d) (s.zsets (entries_key v)))) [
      | inl here ↦ rw here (refl, omega arith)
      | inr new ↦ rw new (refl, omega arith)
    ]
Step-IsLater b l u v ne s t (leaves d) =
    elim (Bool-cases (has_member (str_of d) (s.zsets (entries_key v)))) [
      | inl here ↦ rw here (refl, omega arith)
      | inr absent ↦ rw absent (refl, omega arith)
    ]
Step-IsLater b l u v ne s t (passes n) = (refl, omega arith)
Step-IsLater b l u v ne s t (configures m) = (refl, omega arith)
Step-IsLater b l u v ne s t (chooses ids) = (refl, omega arith)
Step-IsLater b l u v ne s t counts = (refl, omega arith)
Step-IsLater b l u v ne s t (logs m) = (refl, omega arith)
Step-IsLater b l u v ne s t (tells frame) = (refl, omega arith)
