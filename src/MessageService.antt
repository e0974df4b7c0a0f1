-- ===== src/MessageService.antt =====
-- server/src/service/MessageService.cpp. The time of a message is that of its handler's `Env`.
pub mod Delivery
pub mod Private
use cpp_chat_server.Prelude.{
  ℤ, pos, ℕ, String, Option, none, some, [], ◌∷◌, ◌==◌, if◌then◌else◌, concat, to_string, int_eq,
  string_eq,
}
use cpp_chat_server.Protocol.{Timestamp, Envelope, envelope, error, message_broadcast}
use cpp_chat_server.Domain.{default_message}
use cpp_chat_server.Exec.{Exec, when, ◌>>=◌, ◌>>◌}
use cpp_chat_server.Repository.{Repositories}
use cpp_chat_server.World.{World, Env, call, send, is_authenticated, get_user_id, get_username}
use cpp_chat_server.SessionManager.{find_by_username}
use cpp_chat_server.RoomService.{
  broadcast_to_room, get_user_current_room_name, get_user_current_room_id,
}

abbrev pub not_in_room : Envelope
not_in_room = error (pos 403) "You are not in any room. Join a room to send messages."

abbrev pub not_online : String → Envelope
not_online name = error (pos 404) (
    concat
      ("The user " ∷ name ∷ " you are trying to message does not exist or is not online." ∷ []))

abbrev pub to_yourself : Envelope
to_yourself = error (pos 400) "You cannot send a private message to yourself."

pub chat_message : Timestamp → ℤ → String → String → String → Envelope
chat_message now sender username content room = envelope (
    message_broadcast (record {
      from_user_id = to_string sender;
      from_username = username;
      content = content;
      timestamp = now;
      room_name = some room;
    }))

module _ {Store : Type 0} (env : Env) where
  deliver : ℕ → ℤ → String → String → String → ℕ → Exec (World Store) (Unit {0})
  unfolding get_user_id send
  deliver s sender username room content t = do
    target ← get_user_id t
    let message = chat_message env.now sender username content room
    if target == sender then send s to_yourself else do send t message; send s message

  deliver_to : ℕ → ℤ → String → String → String → String → Option ℕ → Exec (World Store) (Unit {0})
  unfolding deliver send is_authenticated
  deliver_to s sender username room to content none = send s (not_online to)
  deliver_to s sender username room to content (some t) = do
    online ← is_authenticated t
    if online then deliver s sender username room content t else send s (not_online to)

  private_message : ℕ → String → String → Exec (World Store) (Unit {0})
  unfolding get_user_id get_username get_user_current_room_name find_by_username deliver_to send
  private_message s to content = do
    sender ← get_user_id s
    username ← get_username s
    room ← get_user_current_room_name sender
    if room == ""
        then send s not_in_room
        else do target ← find_by_username to; deliver_to s sender username room to content target

  unfoldable pub handle_private_message : ℕ → String → String → Exec (World Store) (Unit {0})
  unfolding is_authenticated private_message
  handle_private_message s to content = do
    authenticated ← is_authenticated s
    when authenticated (private_message s to content)

  module _ (repos : Repositories Store) where
    -- The broadcast goes out whether or not the repository kept the message.
    publish : ℕ → ℤ → String → String → Exec (World Store) (Unit {0})
    unfolding get_user_current_room_id get_user_current_room_name call get_username get_user_id
        broadcast_to_room
    publish s sender room content = do
      room_id ← get_user_current_room_id sender
      call (
          repos.messages.add_message
            (record default_message { sender_id = sender; room_id = room_id; content = content }))
      username ← get_username s
      user ← get_user_id s
      current ← get_user_current_room_name user
      broadcast_to_room current (chat_message env.now sender username content room) (pos 0)

    unfoldable pub handle_public_message : ℕ → String → Exec (World Store) (Unit {0})
    unfolding is_authenticated get_user_id get_username get_user_current_room_name send publish
    handle_public_message s content = do
      authenticated ← is_authenticated s
      when authenticated do
        sender ← get_user_id s
        room ← get_user_current_room_name sender
        if room == ""
            then (do get_username s; send s not_in_room)
            else publish s sender room content
