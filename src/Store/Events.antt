-- ===== src/Store/Events.antt =====
-- src/tape_service/store/events.py: the frames on a user's channel. `now` is `datetime.now(UTC)`.
pub mod Laws
use s3p_tape_service.Prelude.{ℕ}
use s3p_tape_service.Prelude.Text.{Text, codes}
use s3p_tape_service.Action.{Action}
use s3p_tape_service.Keys.{channel_for}
use s3p_tape_service.Redis.{Redis}
use s3p_tape_service.Stdlib.{Stdlib, Json, num, str, obj, Members, end, member}

module _ (lib : Stdlib) (now : ℕ) where
  -- `_envelope`
  unfoldable pub envelope : Text → ℕ → Members → Json
  envelope event_type user_id extra = obj (
      member (codes "type") (str event_type) (
        member (codes "user_id") (num user_id)
          (member (codes "at") (str (lib.isoformat now)) extra)))

  unfoldable pub make_lock_acquired : ℕ → Json
  unfolding envelope
  make_lock_acquired user_id = envelope (codes "lock.acquired") user_id end

  unfoldable pub make_lock_released : ℕ → Json
  unfolding envelope
  make_lock_released user_id = envelope (codes "lock.released") user_id end

  unfoldable pub make_schedule_queued : ℕ → Text → Json
  unfolding envelope
  make_schedule_queued user_id reason =
      envelope (codes "schedule.queued") user_id (member (codes "reason") (str reason) end)

  unfoldable pub make_schedule_started : ℕ → ℕ → Text → Json
  unfolding envelope
  make_schedule_started user_id run_id kind =
      envelope (codes "schedule.started") user_id
        (member (codes "run_id") (num run_id) (member (codes "kind") (str kind) end))

  unfoldable pub make_schedule_completed : ℕ → ℕ → Text → Json
  unfolding envelope
  make_schedule_completed user_id run_id status =
      envelope (codes "schedule.completed") user_id
        (member (codes "run_id") (num run_id) (member (codes "status") (str status) end))

  unfoldable pub make_tape_entry_added : ℕ → ℕ → ℕ → Json
  unfolding envelope
  make_tape_entry_added user_id position document_id = envelope (codes "tape.entry_added") user_id (
      member (codes "position") (num position) (member (codes "document_id") (num document_id) end))

  unfoldable pub make_tape_entry_removed : ℕ → ℕ → Json
  unfolding envelope
  make_tape_entry_removed user_id document_id =
      envelope (codes "tape.entry_removed") user_id
        (member (codes "document_id") (num document_id) end)

  unfoldable pub make_tape_regenerated : ℕ → Text → ℕ → ℕ → Json
  unfolding envelope
  make_tape_regenerated user_id kind added removed = envelope (codes "tape.regenerated") user_id (
      member (codes "kind") (str kind)
        (member (codes "added") (num added) (member (codes "removed") (num removed) end)))

module _ (r : Redis) (lib : Stdlib) where
  unfoldable pub publish : ℕ → Json → Action r.Server ℕ
  publish user_id event = r.publish (channel_for user_id) (lib.dumps event)
