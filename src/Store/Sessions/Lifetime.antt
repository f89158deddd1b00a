-- ===== src/Store/Sessions/Lifetime.antt =====
-- How long a session lives: `issue`, `validate` and `revoke` on any server.
use s3p_tape_service.Prelude.{
  ℕ, ◌+◌, ◌*◌, ◌<◌, ◌≡◌, refl, ap, ap₂, subst, sym, ◌∙◌, true, false, Option, none, some, List, [],
  ◌∷◌, map, arith, leb, ltb, if◌then◌else◌, All,
}
use s3p_tape_service.Prelude.Text.{Text, text_eq_refl}
use s3p_tape_service.Action.{Action, Implements, ◌>>◌, for_map}
use s3p_tape_service.Errors.{Result, ok}
use s3p_tape_service.Redis.{Redis, Keyspace, reference}
use s3p_tape_service.Redis.Command
use s3p_tape_service.Settings.{Settings}
use s3p_tape_service.Stdlib.{Stdlib, Json, obj, Members}
use s3p_tape_service.Store.Sessions.{
  Session, day, idle_seconds, payload, key_of, issue, check_blob, check_payload, check_dates,
  reject, refresh, session_of, dates, validate, revoke,
}
use s3p_tape_service.Store.Sessions.Laws.{
  Stored, valid, refreshed, validate-Implements, validate-reference,
}

module _ (r : Redis) (lib : Stdlib) (s : Settings) where
  open r use {view, Server, set_ex_law, delete_law, get, elapse, elapse_law}

  -- `issue` returns the raw id and stores a session that expires for good after the absolute
  -- lifetime, and on the server after the idle lifetime.
  pub issue_lem :
      (srv : Server) (now : ℕ) (raw : Text) (user : ℕ)
      → ((issue r lib s now raw user srv).1 ≡ raw)
        × Stored lib
            (view (issue r lib s now raw user srv).0)
            (key_of lib raw)
            user
            now
            (now + s.session_absolute_ttl_days * day)
            now
            ((view srv).clock + idle_seconds s)
  unfolding issue
  issue_lem srv now raw user = (
    refl,
    ap (λ (k : Keyspace). k.strings (key_of lib raw)) ((set_ex_law _ _ _).state srv) ∙ stored,
  )
    where
      stored :
          (Command.set_ex
              (key_of lib raw)
              (lib.dumps (obj (payload lib user now (now + s.session_absolute_ttl_days * day) now)))
              (idle_seconds s)
              (view srv)).0.strings
            (key_of lib raw)
          ≡ some (
            lib.dumps (obj (payload lib user now (now + s.session_absolute_ttl_days * day) now)),
            (view srv).clock + idle_seconds s,
          )
      stored = rw (text_eq_refl (key_of lib raw))

  module _ (raw : Text) (user created expires : ℕ) where
    -- `validate` on a stored session, on every branch: after the deadline of the server the session
    -- is unknown and nothing changes; from its absolute expiry on it is deleted; before that it is
    -- returned with `last_seen` set, and written anew with a fresh idle lifetime.
    pub validate_lem :
        (srv : Server) (last_seen deadline now : ℕ)
        → Stored lib (view srv) (key_of lib raw) user created expires last_seen deadline
        → let (srv', result) = validate r lib s now raw srv in
          let ks = view srv in
          ◌≡◌ {A = Keyspace × Result (Option Session)}
            (view srv', result)
            (if ltb ks.clock deadline
              then (if leb expires now then ((Command.delete (key_of lib raw) ks).0, ok none) else (
                refreshed lib s ks raw user created expires now,
                valid user created expires now,
              ))
              else (ks, ok none))
    validate_lem srv last_seen deadline now stored =
        ap₂ {C = Keyspace × Result (Option Session)} (λ k x. (k, x)) (im.state srv) (im.result srv)
        ∙ validate-reference lib s (view srv) raw user created expires last_seen now deadline stored
      where
        im : Implements view (validate r lib s now raw) (validate reference lib s now raw)
        im = validate-Implements r lib s now raw

    -- A visit: so many seconds pass on the server, then the session is validated.
    unfoldable pub visit : ℕ × ℕ → Action Server (Result (Option Session))
    visit (gap, now) = elapse gap >> validate r lib s now raw

    visit-Stored :
        (srv : Server) (last_seen deadline gap now : ℕ)
        → Stored lib (view srv) (key_of lib raw) user created expires last_seen deadline
        → (view srv).clock + gap < deadline
        → now < expires
        → let (srv', result) = visit (gap, now) srv in
          (result ≡ valid user created expires now)
          × Stored lib
              (view srv')
              (key_of lib raw)
              user
              created
              expires
              now
              ((view srv').clock + idle_seconds s)
    unfolding visit
    visit-Stored srv last_seen deadline gap now stored early in_time = (
      ap (λ (x : Keyspace × Result (Option Session)). x.1) both,
      subst
          (λ (k : Keyspace).
            Stored lib k (key_of lib raw) user created expires now (k.clock + idle_seconds s))
          (sym (ap (λ (x : Keyspace × Result (Option Session)). x.0) both)) written,
    )
      where
        ks : Keyspace
        ks = (Command.elapse gap (view srv)).0

        passed : view (elapse gap srv).0 ≡ ks
        passed = (elapse_law gap).state srv

        after : Keyspace
        after = refreshed lib s ks raw user created expires now

        written :
            Stored lib after
              (key_of lib raw)
              user
              created
              expires
              now
              (after.clock + idle_seconds s)
        written = rw (text_eq_refl (key_of lib raw))

        both :
            ◌≡◌ {A = Keyspace × Result (Option Session)}
              (
                view (validate r lib s now raw (elapse gap srv).0).0,
                (validate r lib s now raw (elapse gap srv).0).1,
              )
              (after, valid user created expires now)
        both =
            validate_lem (elapse gap srv).0 last_seen deadline now
              (ap (λ (k : Keyspace). k.strings (key_of lib raw)) passed ∙ stored)
            ∙ rw (passed, live, fresh)
          where
            live : ltb ks.clock deadline ≡ true
            live = ground arith

            fresh : leb expires now ≡ false
            fresh = ground arith

    -- A session stays valid up to its absolute expiry, however often it is used, as long as each
    -- pause between two uses is shorter than the idle lifetime: along any sequence of visits, every
    -- one returns the user and the dates of the session.
    pub visits_lem :
        (srv : Server) (last_seen deadline : ℕ) (visits : List (ℕ × ℕ))
        → Stored lib (view srv) (key_of lib raw) user created expires last_seen deadline
        → deadline ≡ (view srv).clock + idle_seconds s
        → All (λ v. (v.0 < idle_seconds s) × (v.1 < expires)) visits
        → (for_map visits visit srv).1 ≡ map (λ v. valid user created expires v.1) visits
    unfolding for_map
    visits_lem srv last_seen deadline [] stored fresh h = refl
    visits_lem srv last_seen deadline ((gap, now) ∷ visits) stored fresh h =
        let (good, kept) = visit-Stored srv last_seen deadline gap now stored (omega arith) h.0.1 in
        ap₂ (λ (x : Result (Option Session)) (xs : List (Result (Option Session))). x ∷ xs) good
          (visits_lem (visit (gap, now) srv).0 now _ visits kept refl h.1)

  session_of-eq-some :
      (m : Members) (created expires now : ℕ) (sess : Session)
      → session_of lib m created expires now ≡ ok (some sess)
      → (sess.expires_at ≡ expires) × (sess.last_seen ≡ now)
  unfolding session_of
  session_of-eq-some m created expires now sess h = ground arith

  check_dates-lt :
      (srv : Server) (now : ℕ) (raw : Text) (m : Members) (d : Option (ℕ × ℕ × ℕ)) (sess : Session)
      → (check_dates r lib s now raw m d srv).1 ≡ ok (some sess)
      → (now < sess.expires_at) × (sess.last_seen ≡ now)
  unfolding check_dates refresh reject
  check_dates-lt srv now raw m none sess h = cc
  check_dates-lt srv now raw m (some (created, expires, last_seen)) sess h =
      ground (arith, session_of-eq-some m created expires now sess)

  check_blob-lt :
      (srv : Server) (now : ℕ) (raw : Text) (blob : Option Text) (sess : Session)
      → (check_blob r lib s now raw blob srv).1 ≡ ok (some sess)
      → (now < sess.expires_at) × (sess.last_seen ≡ now)
  unfolding check_blob reject
  check_blob-lt srv now raw none sess h = cc
  check_blob-lt srv now raw (some blob) sess h = on_payload (lib.loads blob) h
    where
      on_payload :
          (j : Option Json)
          → (check_payload r lib s now raw j srv).1 ≡ ok (some sess)
          → (now < sess.expires_at) × (sess.last_seen ≡ now)
      on_payload (some (obj m)) e = check_dates-lt srv now raw m (dates lib m) sess e
      on_payload none e = cc
      on_payload _ e = cc

  -- No session is returned at or after its absolute expiry, whatever the server holds.
  validate-lt-expires :
      (srv : Server) (now : ℕ) (raw : Text) (sess : Session)
      → (validate r lib s now raw srv).1 ≡ ok (some sess)
      → (now < sess.expires_at) × (sess.last_seen ≡ now)
  unfolding validate
  validate-lt-expires srv now raw sess h =
      check_blob-lt (get (key_of lib raw) srv).0 now raw (get (key_of lib raw) srv).1 sess h

  unknown :
      (ks : Keyspace) (now : ℕ) (raw : Text)
      → ks.strings (key_of lib raw) ≡ none
      → (validate reference lib s now raw ks).1 ≡ ok none
  unfolding validate check_blob
  unknown ks now raw h = rw h

  -- A revoked session is unknown.
  pub validate-revoke :
      (srv : Server) (now : ℕ) (raw : Text)
      → (validate r lib s now raw (revoke r lib s raw srv).0).1 ≡ ok none
  unfolding revoke
  validate-revoke srv now raw =
      (validate-Implements r lib s now raw).result (revoke r lib s raw srv).0
      ∙ rw (delete_law (key_of lib raw)).state (
          unknown (Command.delete (key_of lib raw) (view srv)).0 now raw
            (rw (text_eq_refl (key_of lib raw))))
