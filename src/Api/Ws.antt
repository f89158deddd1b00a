-- ===== src/Api/Ws.antt =====
-- src/tape_service/api/ws.py: the WebSocket that forwards a user's frames. Redis returns texts, as
-- its client is told to decode. An action is what the handler does to its client or to its
-- subscription, in order.
use s3p_tape_service.Prelude.{
  ℕ, zero, suc, Bool, false, not, Option, none, some, List, [], ◌∷◌, ◌++◌, if◌then◌else◌,
}
use s3p_tape_service.Prelude.Text.{Text, codes, text_eq}
use s3p_tape_service.Method.{Method, pure, ◌>>=◌}
use s3p_tape_service.Keys.{channel_for}
use s3p_tape_service.Redis.{Redis}
use s3p_tape_service.Redis.Command.{has}
use s3p_tape_service.Settings.{Settings}
use s3p_tape_service.Stdlib.{Stdlib}
use s3p_tape_service.Store.Sessions.{Session, validate_async}

-- A message of `pubsub.listen()`: its `type` and its `data`.
pub record Message : Type 0 where
  pub type : Text
  pub payload : Text

pub data WsAction : Type 0 where
  close : (code : ℕ) → WsAction
  accept : WsAction
  subscribe unsubscribe send_text : (text : Text) → WsAction
  aclose : WsAction

abbrev pub close_unauthorized : ℕ
close_unauthorized = 1008

-- `origin and origin not in s.cors_allow_origins`, where the list is not empty.
unfoldable pub is_foreign : List Text → Option Text → Bool
is_foreign [] origin = false
is_foreign (a ∷ allowed) none = false
is_foreign (a ∷ allowed) (some []) = false
is_foreign (a ∷ allowed) (some (c ∷ origin)) = not (has (a ∷ allowed) (c ∷ origin))

-- The loop over the messages. Sending raises `WebSocketDisconnect` after `sends` frames.
unfoldable pub forward : ℕ → List Message → List WsAction
unfolding text_eq
forward sends [] = []
forward zero (m ∷ messages) =
    let rest = forward zero messages in if text_eq m.type (codes "message") then [] else rest
forward (suc sends) (m ∷ messages) =
    let rest = forward (suc sends) messages in
    let sent = send_text m.payload ∷ forward sends messages in
    if text_eq m.type (codes "message") then sent else rest

-- What follows `await ws.accept()`, with the `finally` block.
unfoldable pub stream : ℕ → ℕ → List Message → List WsAction
unfolding forward
stream user_id sends messages =
    accept ∷ subscribe (channel_for user_id) ∷ forward sends messages
    ++ unsubscribe (channel_for user_id) ∷ aclose ∷ []

unfoldable pub greet : ℕ → List Message → Option Session → List WsAction
unfolding stream
greet sends messages none = close close_unauthorized ∷ []
greet sends messages (some sess) = stream sess.user_id sends messages

module _ (r : Redis) (lib : Stdlib) (s : Settings) where
  open r use {Server, view}

  -- `await sessions.validate_async(...) if raw else None`
  unfoldable pub session_of_cookie : ℕ → Option Text → Method Server (Option Session)
  unfolding validate_async
  session_of_cookie now none = pure none
  session_of_cookie now (some []) = pure none
  session_of_cookie now (some (c ∷ raw)) = validate_async r lib s now (c ∷ raw)

  unfoldable pub handshake : ℕ → Option Text → ℕ → List Message → Method Server (List WsAction)
  unfolding session_of_cookie greet
  handshake now cookie sends messages = do
    sess ← session_of_cookie now cookie
    pure (greet sends messages sess)

  unfoldable pub ws_endpoint :
      ℕ → Option Text → Option Text → ℕ → List Message → Method Server (List WsAction)
  unfolding handshake is_foreign
  ws_endpoint now origin cookie sends messages =
      if is_foreign s.cors_allow_origins origin
      then pure (close close_unauthorized ∷ [])
      else handshake now cookie sends messages

-- The frames among the messages.
abbrev pub frames : List Message → List Text
unfolding text_eq
frames [] = []
frames (m ∷ messages) =
    if text_eq m.type (codes "message") then m.payload ∷ frames messages else frames messages
