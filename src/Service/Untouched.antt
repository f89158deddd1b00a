-- ===== src/Service/Untouched.antt =====
-- What Redis holds for one user is not touched by the commands for another.
use s3p_tape_service.Prelude.{Bool, true, ℕ, ◌≡◌, ◌≢◌, refl, ◌∙◌, Bool-cases, inl, inr}
use s3p_tape_service.Prelude.Text.{Text, text_eq_ne}
use s3p_tape_service.Keys.{
  entries_key, cfg_key, cfg_sources_key, lock_key, session_key, channel_for, entries_key-injective,
  cfg_key-injective, cfg_sources_key-injective, lock_key-injective, channel_for-injective,
  entries_key-ne-cfg_sources_key, entries_key-ne-lock_key, entries_key-ne-session_key,
  cfg_key-ne-entries_key, cfg_key-ne-cfg_sources_key, cfg_key-ne-lock_key, cfg_key-ne-session_key,
  cfg_sources_key-ne-entries_key, cfg_sources_key-ne-lock_key, cfg_sources_key-ne-session_key,
  lock_key-ne-entries_key, lock_key-ne-cfg_sources_key, lock_key-ne-session_key,
}
use s3p_tape_service.Redis.{Keyspace, has_member, update}
use s3p_tape_service.Redis.Command
use s3p_tape_service.Redis.Command.{is_some, live}
use s3p_tape_service.Settings.{Settings}
use s3p_tape_service.Stdlib.{Stdlib}
use s3p_tape_service.Database.{Database}
use s3p_tape_service.Prelude.Text.{str_of}
use s3p_tape_service.Service.Steps.{
  Step, Steps, done, more, passes, enters, leaves, empties, configures, chooses, forgets, locks,
  unlocks, counts, logs, tells, signs_in, signs_out,
}
use s3p_tape_service.Service.Operations.{Operation, perform, perform-Steps}

-- The user's tape, configuration, sources, lock and frames are the same in both keyspaces.
pub record Untouched (v : ℕ) (s t : Keyspace) : Type 0 where
  pub tape : t.zsets (entries_key v) ≡ s.zsets (entries_key v)
  pub config : t.hashes (cfg_key v) ≡ s.hashes (cfg_key v)
  pub sources : t.sets (cfg_sources_key v) ≡ s.sets (cfg_sources_key v)
  pub lock : t.strings (lock_key v) ≡ s.strings (lock_key v)
  pub frames : t.channels (channel_for v) ≡ s.channels (channel_for v)

pub same : {v : ℕ} {s : Keyspace} → Untouched v s s
same = record { tape = refl; config = refl; sources = refl; lock = refl; frames = refl }

pub Untouched-trans :
    {v : ℕ} {s t w : Keyspace} → Untouched v s t → Untouched v t w → Untouched v s w
Untouched-trans before last = record {
  tape = last.tape ∙ before.tape;
  config = last.config ∙ before.config;
  sources = last.sources ∙ before.sources;
  lock = last.lock ∙ before.lock;
  frames = last.frames ∙ before.frames;
}

pub update_other : {A : Type 0} (f : Text → A) (k j : Text) (x : A) → j ≢ k → update f k x j ≡ f j
update_other f k j x ne = rw (text_eq_ne j k ne)

-- A key that is none of the user's is deleted.
delete-Untouched :
    (v : ℕ) (k : Text) (s : Keyspace)
    → entries_key v ≢ k
    → cfg_key v ≢ k
    → cfg_sources_key v ≢ k
    → lock_key v ≢ k
    → Untouched v s (Command.delete k s).0
delete-Untouched v k s e c d l = record {
  tape = update_other s.zsets k (entries_key v) _ e;
  config = update_other s.hashes k (cfg_key v) _ c;
  sources = update_other s.sets k (cfg_sources_key v) _ d;
  lock = update_other s.strings k (lock_key v) _ l;
  frames = refl;
}

Step-Untouched :
    (b : Bool) (l u v : ℕ) → u ≢ v → (s t : Keyspace) → Step b l u s t → Untouched v s t
Step-Untouched b l u v ne s t (passes n) = record {
  tape = refl;
  config = refl;
  sources = refl;
  lock = refl;
  frames = refl;
}
Step-Untouched b l u v ne s t counts = record {
  tape = refl;
  config = refl;
  sources = refl;
  lock = refl;
  frames = refl;
}
Step-Untouched b l u v ne s t (logs m) = record {
  tape = refl;
  config = refl;
  sources = refl;
  lock = refl;
  frames = refl;
}
Step-Untouched b l u v ne s t (enters d p) =
    elim (Bool-cases (has_member (str_of d) (s.zsets (entries_key u)))) [
      | inl here ↦ rw here same
      | inr new ↦ rw new (record {
        tape = update_other s.zsets _ _ _ (λ e. ne (entries_key-injective u v (cc (e))));
        config = refl;
        sources = refl;
        lock = refl;
        frames = refl;
      })
    ]
Step-Untouched b l u v ne s t (leaves d) =
    elim (Bool-cases (has_member (str_of d) (s.zsets (entries_key u)))) [
      | inl here ↦ rw here (record {
        tape = update_other s.zsets _ _ _ (λ e. ne (entries_key-injective u v (cc (e))));
        config = refl;
        sources = refl;
        lock = refl;
        frames = refl;
      })
      | inr absent ↦ rw absent same
    ]
Step-Untouched b l u v ne s t empties =
    delete-Untouched v (entries_key u) s (λ e. ne (entries_key-injective u v (cc (e))))
      (cfg_key-ne-entries_key v u) (cfg_sources_key-ne-entries_key v u)
      (lock_key-ne-entries_key v u)
Step-Untouched b l u v ne s t (configures m) = record {
  tape = refl;
  config = update_other s.hashes _ _ _ (λ e. ne (cfg_key-injective u v (cc (e))));
  sources = refl;
  lock = refl;
  frames = refl;
}
Step-Untouched b l u v ne s t (chooses ids) = record {
  tape = refl;
  config = refl;
  sources = update_other s.sets _ _ _ (λ e. ne (cfg_sources_key-injective u v (cc (e))));
  lock = refl;
  frames = refl;
}
Step-Untouched b l u v ne s t forgets =
    delete-Untouched v (cfg_sources_key u) s (entries_key-ne-cfg_sources_key v u)
      (cfg_key-ne-cfg_sources_key v u) (λ e. ne (cfg_sources_key-injective u v (cc (e))))
      (lock_key-ne-cfg_sources_key v u)
Step-Untouched b l u v ne s t (locks free_to token) =
    elim (Bool-cases (is_some (live s.clock (s.strings (lock_key u))))) [
      | inl held ↦ rw held same
      | inr free ↦ rw free (record {
        tape = refl;
        config = refl;
        sources = refl;
        lock = update_other s.strings _ _ _ (λ e. ne (lock_key-injective u v (cc (e))));
        frames = refl;
      })
    ]
Step-Untouched b l u v ne s t (unlocks free_to) =
    delete-Untouched v (lock_key u) s (entries_key-ne-lock_key v u) (cfg_key-ne-lock_key v u)
      (cfg_sources_key-ne-lock_key v u) (λ e. ne (lock_key-injective u v (cc (e))))
Step-Untouched b l u v ne s t (tells frame) = record {
  tape = refl;
  config = refl;
  sources = refl;
  lock = refl;
  frames = update_other s.channels _ _ _ (λ e. ne (channel_for-injective u v (cc (e))));
}
Step-Untouched b l u v ne s t (signs_in h blob ttl) = record {
  tape = refl;
  config = refl;
  sources = refl;
  lock = update_other s.strings _ _ _ (lock_key-ne-session_key v h);
  frames = refl;
}
Step-Untouched b l u v ne s t (signs_out h) =
    delete-Untouched v (session_key h) s (entries_key-ne-session_key v h)
      (cfg_key-ne-session_key v h) (cfg_sources_key-ne-session_key v h)
      (lock_key-ne-session_key v h)

pub Steps-Untouched :
    (b : Bool) (l u v : ℕ) → u ≢ v → (s t : Keyspace) → Steps b l u s t → Untouched v s t
Steps-Untouched b l u v ne s t done = same
Steps-Untouched b l u v ne s t (more {t = r} ps st) =
    Untouched-trans (Steps-Untouched b l u v ne s r ps) (Step-Untouched b l u v ne r t st)

-- Whatever a user, the worker or the platform makes the service do for the user `u`, and
-- whether it returns or raises, the tape, the configuration, the sources and the lock of any
-- other user `v` stay as they were, and `v` receives no frame.
pub perform-Untouched :
    (lib : Stdlib) (st : Settings) (pg : Database) (now u v : ℕ)
    → u ≢ v
    → (op : Operation pg) (s : Keyspace) → Untouched v s (perform lib st pg now u op s)
perform-Untouched lib st pg now u v ne op s =
    Steps-Untouched true st.worker_advisory_lock_ttl_seconds u v ne s (perform lib st pg now u op s)
      (perform-Steps lib st pg now u op s)
