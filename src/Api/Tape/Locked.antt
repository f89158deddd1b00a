-- ===== src/Api/Tape/Locked.antt =====
-- What a client that reads the tape is told while a worker is at it: store/lock.py and api/tape.py of
-- src/tape_service together.
use s3p_tape_service.Prelude.{
  ℕ, ◌+◌, ◌<◌, ◌≡◌, refl, ap, ◌∙◌, Bool, true, false, Option, some, ltb, arith, if◌then◌else◌,
  Bool-cases, inl, inr,
}
use s3p_tape_service.Prelude.Text.{Text, codes, text_eq_refl}
use s3p_tape_service.Errors.{Result, raise, api_error, status, code, tape_locked}
use s3p_tape_service.Errors.Answer.{IsAnswered, answered}
use s3p_tape_service.Redis.{Redis, Keyspace, reference}
use s3p_tape_service.Redis.Command.{is_some}
use s3p_tape_service.Stdlib.{Stdlib}
use s3p_tape_service.Settings.{Settings}
use s3p_tape_service.Database.{Database}
use s3p_tape_service.Keys.{lock_key}
use s3p_tape_service.Store.Lock.{acquire}
use s3p_tape_service.Store.Lock.Laws.{holder, acquire-reference, acquire-Implements}
use s3p_tape_service.Api.Pages.{TapePage}
use s3p_tape_service.Api.Tape.{read_tape, locked_error}
use s3p_tape_service.Api.Tape.Implementation.{read_tape-Implements}

module _ (pg : Database) (db : pg.Db) (u : ℕ) (r : Redis) (lib : Stdlib) where
  open r use {view, Server, elapse, elapse_law}

  refused :
      (now : ℕ) (after : Option ℕ) (s : Keyspace)
      → is_some (holder s u) ≡ true
      → read_tape reference lib pg db now u after s ≡ (s, raise locked_error)
  unfolding read_tape
  refused now after s held = rw held

  module _ (st : Settings) (token : Text) (srv : Server) (seconds : ℕ) where
    -- The server some seconds after a worker asked for the user's lock.
    abbrev pub later : Server
    later = (elapse seconds (acquire r st token u srv).0).0

    held_later :
        (acquire r st token u srv).1 ≡ true
        → seconds < st.worker_advisory_lock_ttl_seconds
        → is_some (holder (view later) u) ≡ true
    held_later got soon = elim (Bool-cases (is_some (holder (view srv) u))) [
      | inl held ↦
          let missed : (acquire reference st token u (view srv)).1 ≡ false =
            rw (acquire-reference st (view srv) token u, held) in
          cc ((acquire-Implements r st token u).result srv, got, missed)
      | inr free ↦
          rw
            (
              (elapse_law seconds).state (acquire r st token u srv).0,
              (acquire-Implements r st token u).state srv,
              acquire-reference st (view srv) token u,
              free,
              text_eq_refl (lock_key u),
            )
            (in_time _ refl)
    ]
      where
        ttl : ℕ
        ttl = st.worker_advisory_lock_ttl_seconds

        in_time :
            (b : Bool)
            → ltb ((view srv).clock + seconds) ((view srv).clock + ttl) ≡ b
            → is_some (if b then some token else Option.none) ≡ true
        in_time true e = refl
        in_time false e = absurd (ground arith)

    -- From the time when a worker gets the user's lock and for as long as the lock lives, whatever
    -- its token, a request of the user for any page of the tape is answered with the status 409, the
    -- code TAPE_LOCKED and a message; it changes nothing on the server.
    pub read_tape-acquire :
        (now : ℕ) (after : Option ℕ)
        → (acquire r st token u srv).1 ≡ true
        → seconds < st.worker_advisory_lock_ttl_seconds
        → let (srv', result) = read_tape r lib pg db now u after later in
          (view srv' ≡ view later)
          × IsAnswered result 409 (codes "TAPE_LOCKED") (codes "tape is regenerating")
    unfolding locked_error status code api_error
    read_tape-acquire now after got soon =
        let im = read_tape-Implements r lib pg db now u after in
        let gone = refused now after (view later) (held_later got soon) in
        (
          im.state later ∙ ap (λ (x : Keyspace × Result TapePage). x.0) gone,
          answered _ tape_locked (codes "tape is regenerating")
              (im.result later ∙ ap (λ (x : Keyspace × Result TapePage). x.1) gone),
        )
