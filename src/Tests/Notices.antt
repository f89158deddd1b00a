-- ===== src/Tests/Notices.antt =====
-- A notification at a concrete input.
use s3p_tape_service.Prelude.{◌≡◌, ℕ, refl, true, none, some, [], ◌∷◌, ◌++◌}
use s3p_tape_service.Prelude.Text.{codes, text_eq}
use s3p_tape_service.Keys.{channel_for}
use s3p_tape_service.Redis.{reference}
use s3p_tape_service.Stdlib.{obj, num, Members, member, end, IsFlat, field?}
use s3p_tape_service.Store.Tape.View.{Holds}
use s3p_tape_service.Worker.Listener.{ids_of}
use s3p_tape_service.Tests.Instances.{std}
use s3p_tape_service.Tests.Samples.{tape, tape-IsTape, configured, configured-Holds}
use s3p_tape_service.Errors.{ok, db_error}
use s3p_tape_service.Worker.Listener.Thread.{
  Rounds, times_out, breaks, new_listener, start, stop, run, notify_channel,
}
use s3p_tape_service.Worker.Listener.Unscored.{heard, unscored}
use s3p_tape_service.Worker.Listener.Heard.{run-heard, start-run, all_told}

abbrev notice : Members
notice = member (codes "user_id") (num 7) (member (codes "document_id") (num 9) end)

notice-ids : ids_of (std.loads (std.dumps (obj notice))) ≡ some (7, 9)
unfolding field? text_eq
notice-ids = rw (std.loads-dumps notice flat) ids
  where
    flat : IsFlat notice
    flat = (tt, refl, (tt, refl, tt))

    ids : ids_of (some (obj notice)) ≡ some (7, 9)
    ids = unfold ids_of in refl

-- A notification of another channel, one that says nothing, and two times the one above; then the
-- connection is lost.
abbrev session : Rounds
session =
    times_out
      (record { channel = codes "other"; payload = std.dumps (obj notice) }
        ∷ record { channel = notify_channel; payload = std.dumps (obj notice) }
        ∷ [])
      (breaks
        (record { channel = notify_channel; payload = [] }
          ∷ record { channel = notify_channel; payload = std.dumps (obj notice) }
          ∷ [])
        db_error)

run-heard_example :
    let srv' =
      (run reference std 50 {T = ℕ} (λ e. true) (ok tt) session (new_listener, configured)).0.1 in
    Holds srv' 7 (unscored std 7 (heard session) tape)
    × (srv'.channels (channel_for 7)
        ≡ configured.channels (channel_for 7) ++ all_told std 7 50 (heard session) tape)
run-heard_example =
    run-heard std 7 50 reference (λ e. true) session new_listener configured tape configured-Holds
      tape-IsTape

start-run_example :
    let l = (start {T = ℕ} 1 new_listener).0 in
    let l' = (run reference std 50 (λ e. true) (ok tt) session (l, configured)).0.0 in
    ((start {T = ℕ} 2 l').1 ≡ none) × ((start {T = ℕ} 2 (stop l').0).1 ≡ some 2)
start-run_example = start-run reference std 50 (λ e. true) (ok tt) session 1 2 configured
