-- ===== src/RoomService.antt =====
-- server/src/service/RoomService.cpp: the handlers, over the locked sections of Rooms.antt. A pointer
-- to a session is never null here; the program passes none.
pub mod History
pub mod Recipients
pub mod Moves
pub mod Together
use mathlib.Core.List.{reverse}
use cpp_chat_server.Prelude.{
  ℤ, pos, is_positive, ℕ, String, Bool, true, false, Option, none, some, List, [], ◌∷◌, ◌++◌, map,
  ◌==◌, if◌then◌else◌, concat, to_string, int_eq, string_eq,
}
use cpp_chat_server.Map.{get, to_list}
use cpp_chat_server.Protocol.{
  MessageBroadcast, RoomOperation, join, leave, create, unrecognized, UserEventType, user_joined,
  user_left, Envelope, envelope, room_operation_response, history_message_response,
  server_notification,
}
use cpp_chat_server.Domain.{Room, Message, default_room}
use cpp_chat_server.Exec.{Exec, pure, gets, modify, value_or, empty_optional, when, ◌>>=◌, ◌>>◌}
use cpp_chat_server.Repository.{Repositories}
use cpp_chat_server.Rooms.{
  ActiveRoom, join_room, leave_room, create_room, disconnect_user, current_room_name,
  current_room_id,
}
use cpp_chat_server.TimeConvert.{convert_time_point_to_timestamp}
use cpp_chat_server.World.{
  World, call, send, is_authenticated, get_user_id, get_username, update_rooms,
}

-- The sessions to which `broadcastToRoom` writes.
unfoldable pub recipients : List (ℤ × ℕ) → ℤ → List ℕ
recipients [] excluded = []
recipients ((user, s) ∷ l) excluded =
    let rest = recipients l excluded in if user == excluded then rest else s ∷ rest

unfoldable pub members_of : Option ActiveRoom → List (ℤ × ℕ)
members_of none = []
members_of (some room) = to_list room.members

unfoldable pub notice : UserEventType → ℤ → String → String → Envelope
notice event user username what = envelope (
    server_notification (record {
      event_type = event;
      user_id = to_string user;
      username = username;
      message = concat ("User " ∷ username ∷ what ∷ []);
    }))

abbrev pub joined : String
joined = " has joined the room."

abbrev pub left : String
left = " has left the room."

unfoldable pub room_response : Bool → RoomOperation → String → String → Envelope
room_response success operation room_name message = envelope (
    room_operation_response (record {
      success = success;
      operation = operation;
      room_name = room_name;
      message = message;
    }))

module _ {Store : Type 0} where
  -- The loop that sends to the recipients, one by one.
  send_all : List ℕ → Envelope → Exec (World Store) (Unit {0})
  send_all l e = modify λ w. record w { sent = w.sent ++ map (λ s. (s, e)) l }

  unfoldable pub broadcast_to_room : String → Envelope → ℤ → Exec (World Store) (Unit {0})
  unfolding send_all recipients members_of
  broadcast_to_room name e excluded = do
    rooms ← gets λ w. w.rooms
    send_all (recipients (members_of (get rooms.active name)) excluded) e

  unfoldable pub get_user_current_room_name : ℤ → Exec (World Store) String
  get_user_current_room_name user = gets λ w. current_room_name w.rooms user

  unfoldable pub get_user_current_room_id : ℤ → Exec (World Store) ℤ
  get_user_current_room_id user = gets λ w. current_room_id w.rooms user

  -- What handleDisconnect does with the mutex held: the others in the room are told before the user
  -- is taken out of it.
  disconnect_from : ℕ → ℤ → String → Exec (World Store) (Unit {0})
  unfolding get_username update_rooms broadcast_to_room
  disconnect_from s user name = do
    username ← get_username s
    broadcast_to_room name (notice user_left user username left) user
    update_rooms λ rooms. disconnect_user rooms user

  disconnect_mapped : ℕ → ℤ → Option String → Exec (World Store) (Unit {0})
  unfolding disconnect_from
  disconnect_mapped s user none = pure tt
  disconnect_mapped s user (some name) = disconnect_from s user name

  unfoldable pub handle_disconnect : ℕ → Exec (World Store) (Unit {0})
  unfolding disconnect_mapped is_authenticated get_user_id
  handle_disconnect s = do
    authenticated ← is_authenticated s
    when authenticated do
      user ← get_user_id s
      current ← gets λ w. get w.rooms.room_of user
      disconnect_mapped s user current

  module _ (repos : Repositories Store) where
    -- The case JOIN for a room that is in the database.
    join_found : ℕ → ℤ → String → Room → Exec (World Store) (Unit {0})
    unfolding update_rooms get_username broadcast_to_room send
    join_found s user name row = do
      update_rooms λ rooms. join_room rooms user s name row
      username ← get_username s
      broadcast_to_room name (notice user_joined user username joined) user
      send s (room_response true join name (concat ("Joined room " ∷ name ∷ " successfully." ∷ [])))

    handle_join : ℕ → ℤ → String → Exec (World Store) (Unit {0})
    unfolding call join_found send
    handle_join s user name = do
      found ← call (repos.rooms.find_by_room_name name)
      elim found [
        | none ↦
            send s
              (room_response false join "" (concat ("Room '" ∷ name ∷ "' does not exist." ∷ [])))
        | some row ↦ join_found s user name row
      ]

    handle_leave : ℕ → ℤ → String → Exec (World Store) (Unit {0})
    unfolding update_rooms get_username broadcast_to_room send
    handle_leave s user name = do
      update_rooms λ rooms. leave_room rooms user name
      username ← get_username s
      broadcast_to_room name (notice user_left user username left) user
      send s (room_response true leave name (concat ("Left room " ∷ name ∷ " successfully." ∷ [])))

    -- The case CREATE for a name that is not in the database.
    create_free : ℕ → ℤ → String → Exec (World Store) (Unit {0})
    unfolding call update_rooms send
    create_free s user name = do
      (added, room) ←
          call (repos.rooms.add_room (record default_room { name = name; creator_id = user }))
      when added (update_rooms λ rooms. create_room rooms user s name room)
      send s (
          room_response added create name (
            concat
              ("Created room " ∷ name ∷ (if added then " successfully." else " failed.") ∷ [])))

    handle_create : ℕ → ℤ → String → Exec (World Store) (Unit {0})
    unfolding call create_free send
    handle_create s user name = do
      found ← call (repos.rooms.find_by_room_name name)
      elim found [
        | some _ ↦ send s (
            room_response false create name
              (concat ("Room name '" ∷ name ∷ "' is already taken." ∷ [])))
        | none ↦ create_free s user name
      ]

    -- the switch on `request.operation()`
    perform : RoomOperation → ℕ → ℤ → String → Exec (World Store) (Unit {0})
    unfolding handle_join handle_leave handle_create send
    perform join s user name = handle_join s user name
    perform leave s user name = handle_leave s user name
    perform create s user name = handle_create s user name
    perform (unrecognized n) s user name =
        send s (room_response false (unrecognized n) name "Unknown operation.")

    unfoldable pub handle_room_operation :
        ℕ → RoomOperation → String → Exec (World Store) (Unit {0})
    unfolding is_authenticated get_user_id perform
    handle_room_operation s operation name = do
      authenticated ← is_authenticated s
      when authenticated do user ← get_user_id s; perform operation s user name

    -- The name of a sender, for which the code asks the database twice.
    unfoldable pub sender_name : ℤ → Exec (World Store) String
    unfolding call
    sender_name sender = do
      found ← call (repos.users.find_by_user_id sender)
      elim found [
        | none ↦ pure "Unknown"
        | some _ ↦ do
          again ← call (repos.users.find_by_user_id sender)
          user ← value_or again empty_optional
          pure user.username
      ]

    -- the loop of `handleHistoryRequest`
    unfoldable pub history_entries :
        String → List Message → Exec (World Store) (List MessageBroadcast)
    history_entries name [] = pure []
    history_entries name (m ∷ l) = do
      from ← sender_name m.sender_id
      rest ← history_entries name l
      pure (
          record {
            from_user_id = to_string m.sender_id;
            from_username = from;
            content = m.content;
            timestamp = convert_time_point_to_timestamp m.created_at;
            room_name = some name;
          }
          ∷ rest)

    history_of : ℕ → ℤ → String → ℤ → Exec (World Store) (Unit {0})
    unfolding get_user_current_room_id history_entries call send
    history_of s user name limit = do
      room_id ← get_user_current_room_id user
      latest ← call (
          repos.messages.find_latest_by_room_id room_id
            (if is_positive limit then limit else pos 50))
      messages ← history_entries name (reverse latest)
      send s (envelope (history_message_response name messages))

    is_current : Option String → String → Bool
    is_current none name = false
    is_current (some current) name = current == name

    unfoldable pub handle_history_request : ℕ → String → ℤ → Exec (World Store) (Unit {0})
    unfolding is_authenticated get_user_id history_of is_current
    handle_history_request s name limit = do
      authenticated ← is_authenticated s
      when authenticated do
        user ← get_user_id s
        current ← gets λ w. get w.rooms.room_of user
        when (is_current current name) (history_of s user name limit)
