-- ===== src/Service/Exclusion.antt =====
-- src/tape_service/store/lock.py: at most one worker at a time is in the body of the lock of a user.
use s3p_tape_service.Prelude.{
  ℕ, ◌+◌, ◌<◌, ◌≡◌, ◌≢◌, ◌⊎◌, subst, refl, ap, ◌∙◌, true, false, Option, none, some, arith,
  Bool-cases, inl, inr,
}
use s3p_tape_service.Prelude.Text.{Text, text_eq, text_eq_ne, text_eq_iff, text_eq_refl}
use s3p_tape_service.Keys.{lock_key}
use s3p_tape_service.Redis.{Keyspace, reference, update}
use s3p_tape_service.Redis.Command
use s3p_tape_service.Redis.Command.{is_some, live}
use s3p_tape_service.Settings.{Settings}
use s3p_tape_service.Store.Lock.{acquire, release, is_locked, holds_token}
use s3p_tape_service.Store.Lock.Laws.{holder, acquire-reference, release-reference}
use s3p_tape_service.Service.Turns.{
  System, Turn, Turns, takes, misses, returns, works, others, done, more, Step-IsLater,
}

written :
    (f : Text → Option ℕ) (k : Text) (o : Option ℕ) (j : Text) (n : ℕ)
    → update f k o j ≡ some n
    → ((j ≡ k) × (o ≡ some n)) ⊎ ((j ≢ k) × (f j ≡ some n))
written f k o j n = elim (Bool-cases (text_eq j k)) [
  | inl here ↦ rw here (λ e. inl ((text_eq_iff j k).0 here, e))
  | inr away ↦ rw away (λ e. inr (λ same. ground (arith, text_eq_iff j k), e))
]

live-some :
    (now deadline : ℕ) (o : Option (Text × ℕ)) (v : Text)
    → o ≡ some (v, deadline)
    → now < deadline
    → live now o ≡ some v
live-some now deadline o v e early = rw e (ground arith)

not_some : {o : Option Text} {v : Text} → o ≡ some v → is_some o ≡ false → ⊥
not_some e none_there = cc (ap is_some e, none_there)

module _ (st : Settings) (u : ℕ) where
  abbrev ttl : ℕ
  ttl = st.worker_advisory_lock_ttl_seconds

  -- A worker that is inside, and whose lifetime is not over, holds the lock.
  abbrev IsExclusive : System → Type 0
  IsExclusive s =
      (token : Text) (since : ℕ)
      → s.inside token ≡ some since
      → s.keyspace.clock < since + ttl
      → s.keyspace.strings (lock_key u) ≡ some (token, since + ttl)

  acquired :
      (s : Keyspace) (token : Text)
      → (acquire reference st token u s).1 ≡ true
      → (is_some (holder s u) ≡ false)
        × ((acquire reference st token u s).0 ≡ (Command.set_ex (lock_key u) token ttl s).0)
  acquired s token = rw (acquire-reference st s token u) (elim (Bool-cases (is_some (holder s u))) [
    | inl held ↦ rw held (λ e. ground arith)
    | inr free ↦ rw free (λ e. (refl, refl))
  ])

  unacquired :
      (s : Keyspace) (token : Text)
      → (acquire reference st token u s).1 ≡ false
      → (acquire reference st token u s).0 ≡ s
  unacquired s token =
      rw (acquire-reference st s token u) (elim (Bool-cases (is_some (holder s u))) [
        | inl held ↦ rw held (λ e. refl)
        | inr free ↦ rw free (λ e. ground arith)
      ])

  clock-release : (s : Keyspace) (token : Text) → (release reference u token s).0.clock ≡ s.clock
  clock-release s token =
      rw (release-reference s token u) (elim (Bool-cases (holds_token (holder s u) token)) [
        | inl own ↦ rw own
        | inr other ↦ rw other
      ])

  unreleased :
      (s : Keyspace) (token other : Text)
      → holder s u ≡ some other
      → other ≢ token
      → (release reference u token s).0 ≡ s
  unfolding holds_token
  unreleased s token other held away =
      rw (release-reference s token u, held, text_eq_ne other token away)

  Turn-IsExclusive : (s t : System) → Turn st u s t → IsExclusive s → IsExclusive t
  Turn-IsExclusive s t (works step) h token since here now =
      let (same, later) = Step-IsLater false ttl u u (λ e. ground arith) _ _ step in
      same ∙ h token since here (omega arith)
  Turn-IsExclusive s t (others {v} ne step) h token since here now =
      let (same, later) = Step-IsLater true ttl u v (λ _. ne) _ _ step in
      same ∙ h token since here (omega arith)
  Turn-IsExclusive s t (takes token new got) h other since here now =
      let (free, after) = acquired s.keyspace token got in
      let now' = subst (λ (k : Keyspace). k.clock < since + ttl) after now in
      ap (λ (k : Keyspace). k.strings (lock_key u)) after
      ∙ rw (text_eq_refl (lock_key u)) (elim (written s.inside token _ other since here) [
        | inl (same, at) ↦ cc (same, at)
        | inr (away, before) ↦
            absurd (
              not_some (live-some s.keyspace.clock _ _ other (h other since before now') now') free)
      ])
  Turn-IsExclusive s t (misses token missed) h other since here now =
      let after = unacquired s.keyspace token missed in
      rw after (h other since here (subst (λ (k : Keyspace). k.clock < since + ttl) after now))
  Turn-IsExclusive s t (returns token) h other since here now =
      elim (written s.inside token none other since here) [
        | inl (same, at) ↦ ground arith
        | inr (away, before) ↦
            let now' = subst (λ (n : ℕ). n < since + ttl) (clock-release s.keyspace token) now in
            let own = h other since before now' in
            rw
              (unreleased s.keyspace token other (live-some s.keyspace.clock _ _ other own now')
                away)
              own
      ]

  Turns-IsExclusive : (s t : System) → Turns st u s t → IsExclusive s → IsExclusive t
  Turns-IsExclusive s t done h = h
  Turns-IsExclusive s t (more {t = m} before last) h =
      Turn-IsExclusive m t last (Turns-IsExclusive s m before h)

  -- However the workers that ask for a user's lock, hold it and give it back take turns with each
  -- other, with the passing of time and with the commands of all other requests: if nobody was
  -- inside at the start, no two workers are ever inside at once, each before the lifetime of the
  -- lock has passed since it went in; and while one is, the API finds the user locked.
  pub exclusive :
      (s t : System)
      → ((token : Text) → s.inside token ≡ none)
      → Turns st u s t
      → (a b : Text) (since later : ℕ) → t.inside a ≡ some since
      → t.inside b ≡ some later
      → t.keyspace.clock < since + ttl
      → t.keyspace.clock < later + ttl
      → (a ≡ b) × (is_locked reference u t.keyspace ≡ (t.keyspace, true))
  unfolding is_locked
  exclusive s t nobody turns a b since later at bt early soon =
      let h = Turns-IsExclusive s t turns λ token n here. absurd (cc (nobody token, here)) in
      let own = h a since at early in
      (
        cc (own, h b later bt soon),
        ap (λ o. (t.keyspace, is_some o)) (live-some t.keyspace.clock _ _ a own early),
      )
