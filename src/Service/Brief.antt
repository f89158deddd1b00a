-- ===== src/Service/Brief.antt =====
-- At every moment each user's lock ends within its configured lifetime, whatever the requests and
-- the runs of the worker do, however they interleave, and wherever a run stops for good.
use s3p_tape_service.Prelude.{
  Bool, ℕ, ◌+◌, ◌≤◌, ◌≡◌, refl, false, Option, none, some, arith, Bool-cases, inl, inr,
}
use s3p_tape_service.Prelude.Text.{Text, str_of, text_eq, text_eq_ne}
use s3p_tape_service.Keys.{
  entries_key, cfg_sources_key, lock_key, session_key, lock_key-ne-session_key,
}
use s3p_tape_service.Redis.{Keyspace, has_member, update}
use s3p_tape_service.Redis.Command.{is_some, live}
use s3p_tape_service.Service.Steps.{
  Step, passes, enters, leaves, empties, configures, chooses, forgets, locks, unlocks, counts, logs,
  tells, signs_in, signs_out,
}

-- Whatever the key holds is gone at the time `n`.
abbrev pub EndsBy : ℕ → Option (Text × ℕ) → Type 0
EndsBy n none = Unit
EndsBy n (some (v, deadline)) = deadline ≤ n

abbrev pub AllBrief : ℕ → Keyspace → Type 0
AllBrief l s = (v : ℕ) → EndsBy (s.clock + l) (s.strings (lock_key v))

pub EndsBy-later : (m n : ℕ) (o : Option (Text × ℕ)) → m ≤ n → EndsBy m o → EndsBy n o
EndsBy-later m n none le h = tt
EndsBy-later m n (some (v, deadline)) le h = omega arith

EndsBy-update :
    (n : ℕ) (f : Text → Option (Text × ℕ)) (k j : Text) (o : Option (Text × ℕ))
    → EndsBy n o
    → EndsBy n (f j)
    → EndsBy n (update f k o j)
EndsBy-update n f k j o new old = elim (Bool-cases (text_eq j k)) [
  | inl here ↦ rw here new
  | inr away ↦ rw away old
]

pub EndsBy-gone : (n : ℕ) (o : Option (Text × ℕ)) → EndsBy n o → is_some (live n o) ≡ false
EndsBy-gone n none h = refl
EndsBy-gone n (some (v, deadline)) h = ground arith

pub Step-AllBrief :
    (b : Bool) (l u : ℕ) (s t : Keyspace) → Step b l u s t → AllBrief l s → AllBrief l t
Step-AllBrief b l u s t (passes n) h v =
    EndsBy-later (s.clock + l) (s.clock + n + l) (s.strings (lock_key v)) (omega arith) (h v)
Step-AllBrief b l u s t (locks free_to token) h v =
    elim (Bool-cases (is_some (live s.clock (s.strings (lock_key u))))) [
      | inl held ↦ rw held (h v)
      | inr free ↦
          rw free
            (EndsBy-update (s.clock + l) s.strings (lock_key u) (lock_key v) _ (omega arith) (h v))
    ]
Step-AllBrief b l u s t (signs_in k blob ttl) h v =
    rw (text_eq_ne (lock_key v) (session_key k) (lock_key-ne-session_key v k)) (h v)
Step-AllBrief b l u s t empties h v =
    EndsBy-update (s.clock + l) s.strings (entries_key u) (lock_key v) none tt (h v)
Step-AllBrief b l u s t forgets h v =
    EndsBy-update (s.clock + l) s.strings (cfg_sources_key u) (lock_key v) none tt (h v)
Step-AllBrief b l u s t (unlocks free_to) h v =
    EndsBy-update (s.clock + l) s.strings (lock_key u) (lock_key v) none tt (h v)
Step-AllBrief b l u s t (signs_out k) h v =
    EndsBy-update (s.clock + l) s.strings (session_key k) (lock_key v) none tt (h v)
Step-AllBrief b l u s t (enters d p) h v =
    elim (Bool-cases (has_member (str_of d) (s.zsets (entries_key u)))) [
      | inl here ↦ rw here (h v)
      | inr new ↦ rw new (h v)
    ]
Step-AllBrief b l u s t (leaves d) h v =
    elim (Bool-cases (has_member (str_of d) (s.zsets (entries_key u)))) [
      | inl here ↦ rw here (h v)
      | inr absent ↦ rw absent (h v)
    ]
Step-AllBrief b l u s t (configures m) h v = h v
Step-AllBrief b l u s t (chooses ids) h v = h v
Step-AllBrief b l u s t counts h v = h v
Step-AllBrief b l u s t (logs m) h v = h v
Step-AllBrief b l u s t (tells frame) h v = h v
