-- ===== src/Store/Sessions/Race.antt =====
-- `validate` reads a session and writes it back in two commands. A logout between them is undone.
use s3p_tape_service.Prelude.{ℕ, ◌+◌, ◌<◌, ◌≡◌, ap, ◌∙◌, true, false, Option, arith, leb, ltb}
use s3p_tape_service.Prelude.Text.{Text, text_eq_refl}
use s3p_tape_service.Action.{Action, Implements, ◌>>=◌, ◌>>◌}
use s3p_tape_service.Action
use s3p_tape_service.Errors.{Result}
use s3p_tape_service.Redis.{Redis, Keyspace, reference}
use s3p_tape_service.Redis.Command
use s3p_tape_service.Settings.{Settings}
use s3p_tape_service.Stdlib.{Stdlib}
use s3p_tape_service.Store.Sessions.{Session, idle_seconds, key_of, check_blob, revoke}
use s3p_tape_service.Store.Sessions.Laws.{Stored, check_blob-Implements, check-payload}

module _ (r : Redis) (lib : Stdlib) (s : Settings) where
  open r use {view, Server, get, get_law, delete_law}

  -- One client's `validate`, with another client's `revoke` after its GET.
  unfoldable pub validate_during_revoke : ℕ → Text → Action Server (Result (Option Session))
  validate_during_revoke now raw = do
    blob ← get (key_of lib raw)
    revoke r lib s raw
    check_blob r lib s now raw blob

  during_revoke-Implements :
      (now : ℕ) (raw : Text)
      → Implements view (validate_during_revoke now raw) (λ ks.
        let blob = (Command.get (key_of lib raw) ks).1 in
        check_blob reference lib s now raw blob (Command.delete (key_of lib raw) ks).0)
  unfolding validate_during_revoke revoke
  during_revoke-Implements now raw = Action.Implements-bind view (get_law (key_of lib raw)) λ blob.
      Action.Implements-bind view (delete_law (key_of lib raw))
        λ _. check_blob-Implements r lib s now raw blob

  written_back :
      (ks : Keyspace) (now : ℕ) (raw : Text) (user created expires last_seen deadline : ℕ)
      → Stored lib ks (key_of lib raw) user created expires last_seen deadline
      → ks.clock < deadline
      → now < expires
      → Stored lib
          (check_blob reference lib s now raw
            (Command.get (key_of lib raw) ks).1
            (Command.delete (key_of lib raw) ks).0).0
          (key_of lib raw)
          user
          created
          expires
          now
          (ks.clock + idle_seconds s)
  written_back ks now raw user created expires last_seen deadline stored live fresh =
      let on : ltb ks.clock deadline ≡ true = ground arith in
      let before : leb expires now ≡ false = ground arith in
      rw (
        stored,
        on,
        check-payload lib s (Command.delete (key_of lib raw) ks).0 raw user created expires
            last_seen now,
        before,
        text_eq_refl (key_of lib raw),
      )

  -- If a session is live and not yet expired when a request reads it, and a logout revokes it before
  -- the request writes it back, then the session is stored again afterwards, with a full idle
  -- lifetime: the logout is lost.
  pub validate_during_revoke-Stored :
      (srv : Server) (now : ℕ) (raw : Text) (user created expires last_seen deadline : ℕ)
      → Stored lib (view srv) (key_of lib raw) user created expires last_seen deadline
      → (view srv).clock < deadline
      → now < expires
      → Stored lib
          (view (validate_during_revoke now raw srv).0)
          (key_of lib raw)
          user
          created
          expires
          now
          ((view srv).clock + idle_seconds s)
  validate_during_revoke-Stored srv now raw user created expires last_seen deadline stored live
        fresh =
      ap (λ (k : Keyspace). k.strings (key_of lib raw))
        ((during_revoke-Implements now raw).state srv)
      ∙ written_back (view srv) now raw user created expires last_seen deadline stored live fresh
