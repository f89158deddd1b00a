-- ===== src/Store/Lock/Laws.antt =====
-- The lock excludes a second holder, ends by itself, and is released only by its own token.
use s3p_tape_service.Prelude.{
  ℕ, ◌+◌, ◌≡◌, ◌≢◌, refl, ap, ◌∙◌, Bool, true, false, Option, none, some, arith, ltb, Bool-cases,
  inl, inr, if◌then◌else◌,
}
use s3p_tape_service.Prelude.Text.{Text, text_eq_refl, text_eq_ne}
use s3p_tape_service.Action.{Action, Implements, Implements-pure, Implements-if, ◌>>=◌, ◌>>◌}
use s3p_tape_service.Action
use s3p_tape_service.Keys.{lock_key}
use s3p_tape_service.Redis.{Redis, Keyspace, reference}
use s3p_tape_service.Redis.Command
use s3p_tape_service.Redis.Command.{live, is_some}
use s3p_tape_service.Settings.{Settings}
use s3p_tape_service.Store.Lock.{holds_token, release, is_locked, acquire}

-- The token that holds the user's lock now.
abbrev pub holder : Keyspace → ℕ → Option Text
holder ks user = live ks.clock (ks.strings (lock_key user))

pub acquire-reference :
    (s : Settings) (ks : Keyspace) (token : Text) (user : ℕ)
    → acquire reference s token user ks ≡ (
        if is_some (holder ks user)
        then (ks, false)
        else ((Command.set_ex (lock_key user) token s.worker_advisory_lock_ttl_seconds ks).0, true))
unfolding acquire
acquire-reference s ks token user = refl

pub release-reference :
    (ks : Keyspace) (token : Text) (user : ℕ)
    → release reference user token ks
      ≡ (if holds_token (holder ks user) token then Command.delete (lock_key user) ks else (ks, tt))
unfolding release
release-reference ks token user = elim (Bool-cases (holds_token (holder ks user) token)) [
  | inl own ↦ rw own
  | inr other ↦ rw other
]

module _ (r : Redis) where
  open r use {view, Server, set_nx_ex_law, get_law, delete_law, exists_law, elapse, elapse_law}

  pub acquire-Implements :
      (s : Settings) (token : Text) (user : ℕ)
      → Implements view (acquire r s token user) (acquire reference s token user)
  unfolding acquire
  acquire-Implements s token user = set_nx_ex_law _ _ _

  pub release-Implements :
      (user : ℕ) (token : Text)
      → Implements view (release r user token) (release reference user token)
  unfolding release
  release-Implements user token = Action.Implements-bind view (get_law _) λ held.
      Implements-if view (holds_token held token) (delete_law (lock_key user))
        (Implements-pure view tt)

  pub is_locked-Implements :
      (user : ℕ) → Implements view (is_locked r user) (is_locked reference user)
  unfolding is_locked
  is_locked-Implements user = exists_law _

  module _ (s : Settings) (srv : Server) (token : Text) (user : ℕ) where
    abbrev acquired : Server
    acquired = (acquire r s token user srv).0

    acquired-view :
        is_some (holder (view srv) user) ≡ false
        → view acquired
          ≡ (Command.set_ex (lock_key user) token s.worker_advisory_lock_ttl_seconds (view srv)).0
    acquired-view free =
        (acquire-Implements s token user).state srv
        ∙ rw (acquire-reference s (view srv) token user, free)

    -- A worker that asks for a lock that nobody holds gets it. The user is then locked for the
    -- configured number of seconds and no longer, also if the worker never releases the lock.
    acquire_free :
        (n : ℕ)
        → is_some (holder (view srv) user) ≡ false
        → ((acquire r s token user srv).1 ≡ true)
          × ((is_locked r user (elapse n acquired).0).1 ≡ ltb n s.worker_advisory_lock_ttl_seconds)
    unfolding is_locked
    acquire_free n free = (
      (acquire-Implements s token user).result srv
          ∙ rw (acquire-reference s (view srv) token user, free),
      (is_locked-Implements user).result (elapse n acquired).0
          ∙ rw ((elapse_law n).state acquired, acquired-view free, text_eq_refl (lock_key user))
              (in_time (ltb n ttl) refl),
    )
      where
        ttl : ℕ
        ttl = s.worker_advisory_lock_ttl_seconds

        in_time :
            (b : Bool)
            → ltb n ttl ≡ b
            → is_some
                (if ltb ((view srv).clock + n) ((view srv).clock + ttl) then some token else none)
              ≡ ltb n ttl
        in_time b e = ground arith

    -- A worker that asks for a lock that is held, by whatever token, does not get it, and nothing
    -- changes on the server.
    pub acquire_taken :
        is_some (holder (view srv) user) ≡ true
        → ((acquire r s token user srv).1 ≡ false) × (view acquired ≡ view srv)
    acquire_taken taken = (
      (acquire-Implements s token user).result srv
          ∙ rw (acquire-reference s (view srv) token user, taken),
      (acquire-Implements s token user).state srv
          ∙ rw (acquire-reference s (view srv) token user, taken),
    )

  -- Releasing with the token of the holder frees the lock.
  release_own :
      (srv : Server) (token : Text) (user : ℕ)
      → holder (view srv) user ≡ some token
      → holder (view (release r user token srv).0) user ≡ none
  unfolding holds_token
  release_own srv token user own = rw (
    (release-Implements user token).state srv,
    release-reference (view srv) token user,
    own,
    text_eq_refl token,
    text_eq_refl (lock_key user),
  )

  -- Releasing with a token that does not hold the lock changes nothing on the server, so a worker
  -- whose lock has expired cannot free the lock of the worker that holds it now.
  release_other :
      (srv : Server) (token : Text) (user : ℕ)
      → holder (view srv) user ≢ some token
      → view (release r user token srv).0 ≡ view srv
  release_other srv token user other =
      (release-Implements user token).state srv
      ∙ rw (release-reference (view srv) token user, not_held (holder (view srv) user) other)
    where
      not_held : (o : Option Text) → o ≢ some token → holds_token o token ≡ false
      not_held none h = unfold holds_token in refl
      not_held (some v) h = unfold holds_token in text_eq_ne v token (λ e. h (ap some e))
