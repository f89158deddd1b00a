-- ===== src/Store/Sessions/Laws.antt =====
-- What a stored session is, and what `issue`, `validate` and `revoke` do to it.
use s3p_tape_service.Prelude.{
  ℕ, ◌≡◌, refl, Option, none, some, leb, ltb, Bool-cases, inl, inr, if◌then◌else◌,
}
use s3p_tape_service.Prelude.Text.{Text, codes, text_eq}
use s3p_tape_service.Action.{Action, Implements, Implements-pure, Implements-if}
use s3p_tape_service.Action
use s3p_tape_service.Errors.{Result, ok}
use s3p_tape_service.Redis.{Redis, Keyspace, reference}
use s3p_tape_service.Redis.Command
use s3p_tape_service.Settings.{Settings}
use s3p_tape_service.Stdlib.{Stdlib, Json, str, obj, Members, IsFlat, field?, set_field}
use s3p_tape_service.Store.Sessions.{
  Session, idle_seconds, dates, payload, session_of, key_of, reject, refresh, check_dates,
  check_payload, check_blob, validate,
}

-- The key of `raw` holds the session of a user, and expires on the server at `deadline`.
abbrev pub Stored : Stdlib → Keyspace → Text → ℕ → ℕ → ℕ → ℕ → ℕ → Type 0
Stored lib ks key user created expires last_seen deadline =
    ks.strings key ≡ some (lib.dumps (obj (payload lib user created expires last_seen)), deadline)

module _ (lib : Stdlib) (user created expires last_seen : ℕ) where
  payload-IsFlat : IsFlat (payload lib user created expires last_seen)
  unfolding payload field? text_eq
  payload-IsFlat = (tt, refl, (tt, refl, (tt, refl, (tt, refl, tt))))

  dates-payload :
      dates lib (payload lib user created expires last_seen) ≡ some (created, expires, last_seen)
  unfolding dates payload text_eq
  dates-payload = rw (
    lib.fromisoformat-isoformat created,
    lib.fromisoformat-isoformat expires,
    lib.fromisoformat-isoformat last_seen,
  )

  session_of-payload :
      (now : ℕ)
      → session_of lib (payload lib user created expires last_seen) created expires now
        ≡ ok (
            some (record {
              user_id = user;
              created_at = created;
              expires_at = expires;
              last_seen = now;
            }))
  unfolding session_of payload text_eq
  session_of-payload now = refl

  set_field-payload :
      (now : ℕ)
      → set_field
          (codes "last_seen")
          (str (lib.isoformat now))
          (payload lib user created expires last_seen)
        ≡ payload lib user created expires now
  unfolding set_field payload text_eq
  set_field-payload now = refl

-- What `validate` returns of a session that it finds.
abbrev pub valid : ℕ → ℕ → ℕ → ℕ → Result (Option Session)
valid user created expires now =
    ok (
      some (record { user_id = user; created_at = created; expires_at = expires; last_seen = now }))

-- The keyspace after `validate` has written the session anew.
abbrev pub refreshed : Stdlib → Settings → Keyspace → Text → ℕ → ℕ → ℕ → ℕ → Keyspace
refreshed lib s ks raw user created expires now =
    (Command.set_ex (key_of lib raw) (lib.dumps (obj (payload lib user created expires now)))
      (idle_seconds s) ks).0

module _ (r : Redis) (lib : Stdlib) (s : Settings) where
  open r use {view, Server, get_law, set_ex_law, delete_law}

  reject-Implements :
      (raw : Text) → Implements view (reject r lib s raw) (reject reference lib s raw)
  unfolding reject key_of
  reject-Implements raw =
      Action.Implements-bind view (delete_law _) λ _. Implements-pure view (ok none)

  refresh-Implements :
      (now : ℕ) (raw : Text) (m : Members) (created expires : ℕ)
      → Implements view
          (refresh r lib s now raw m created expires)
          (refresh reference lib s now raw m created expires)
  unfolding refresh key_of
  refresh-Implements now raw m created expires =
      Action.Implements-bind view (set_ex_law _ _ _)
        λ _. Implements-pure view (session_of lib m created expires now)

  check_dates-Implements :
      (now : ℕ) (raw : Text) (m : Members) (d : Option (ℕ × ℕ × ℕ))
      → Implements view (check_dates r lib s now raw m d) (check_dates reference lib s now raw m d)
  unfolding check_dates
  check_dates-Implements now raw m none = reject-Implements raw
  check_dates-Implements now raw m (some (created, expires, last_seen)) =
      Implements-if view (leb expires now) (reject-Implements raw)
        (refresh-Implements now raw m created expires)

  check_payload-Implements :
      (now : ℕ) (raw : Text) (j : Option Json)
      → Implements view (check_payload r lib s now raw j) (check_payload reference lib s now raw j)
  unfolding check_payload
  check_payload-Implements now raw (some (obj m)) = check_dates-Implements now raw m (dates lib m)
  check_payload-Implements now raw none = reject-Implements raw
  check_payload-Implements now raw _ = reject-Implements raw

  pub check_blob-Implements :
      (now : ℕ) (raw : Text) (blob : Option Text)
      → Implements view (check_blob r lib s now raw blob) (check_blob reference lib s now raw blob)
  unfolding check_blob
  check_blob-Implements now raw none = Implements-pure view (ok none)
  check_blob-Implements now raw (some blob) = check_payload-Implements now raw (lib.loads blob)

  pub validate-Implements :
      (now : ℕ) (raw : Text)
      → Implements view (validate r lib s now raw) (validate reference lib s now raw)
  unfolding validate key_of
  validate-Implements now raw =
      Action.Implements-bind view (get_law _) λ blob. check_blob-Implements now raw blob

module _ (lib : Stdlib) (s : Settings) (ks : Keyspace) (raw : Text)
    (user created expires last_seen now : ℕ) where
  -- The rest of `validate`, on the text that `issue` or an earlier `validate` wrote.
  pub check-payload :
      check_blob reference lib s now raw
        (some (lib.dumps (obj (payload lib user created expires last_seen))))
        ks
      ≡ (if leb expires now
          then ((Command.delete (key_of lib raw) ks).0, ok none)
          else (refreshed lib s ks raw user created expires now, valid user created expires now))
  unfolding check_blob refresh reject
  check-payload =
      rw
        (
          lib.loads-dumps _ (payload-IsFlat lib user created expires last_seen),
          dates-payload lib user created expires last_seen,
        )
        (elim (Bool-cases (leb expires now)) [
          | inl over ↦ rw over
          | inr in_time ↦ rw (
            in_time,
            set_field-payload lib user created expires last_seen now,
            session_of-payload lib user created expires last_seen now,
          )
        ])

  pub validate-reference :
      (deadline : ℕ)
      → Stored lib ks (key_of lib raw) user created expires last_seen deadline
      → validate reference lib s now raw ks ≡ (
          if ltb ks.clock deadline
          then (if leb expires now then ((Command.delete (key_of lib raw) ks).0, ok none) else (
            refreshed lib s ks raw user created expires now,
            valid user created expires now,
          ))
          else (ks, ok none))
  unfolding validate check_blob
  validate-reference deadline stored = elim (Bool-cases (ltb ks.clock deadline)) [
    | inl live ↦ rw (stored, live) check-payload
    | inr gone ↦ rw (stored, gone)
  ]
