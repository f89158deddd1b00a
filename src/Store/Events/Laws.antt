-- ===== src/Store/Events/Laws.antt =====
-- Publishing on a server does to its keyspace what it does to the keyspace itself.
use s3p_tape_service.Prelude.{ℕ}
use s3p_tape_service.Action.{Implements}
use s3p_tape_service.Keys.{channel_for}
use s3p_tape_service.Redis.{Redis, reference}
use s3p_tape_service.Stdlib.{Stdlib, Json}
use s3p_tape_service.Store.Events.{publish}

pub publish-Implements :
    (r : Redis) (lib : Stdlib) (u : ℕ) (event : Json)
    → Implements r.view (publish r lib u event) (publish reference lib u event)
unfolding publish
publish-Implements r lib u event = r.publish_law (channel_for u) (lib.dumps event)
