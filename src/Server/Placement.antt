-- ===== src/Server/Placement.antt =====
-- The room maps of server/src/service/RoomService.h through the tasks of server/src/core/Server.cpp.
use cpp_chat_server.Prelude.{ℤ, ℕ, String, ◌≡◌, refl, List, [], ◌∷◌, arith}
use cpp_chat_server.Domain.{Room, Message}
use cpp_chat_server.Protocol.{
  Payload, login_request, registration_request, change_password_request, change_username_request,
  public_message, private_message_request, room_operation_request, history_message_request,
  RoomOperation, join, leave, create, unrecognized,
}
use cpp_chat_server.Server.{
  dispatch_payload, dispatch_message, on_disconnect, Task, message, closed, run_task, run_tasks,
}
use cpp_chat_server.SessionManager.{remove}
use cpp_chat_server.AuthService.{
  handle_login, handle_register, handle_change_password, handle_change_username, change_username,
}
use cpp_chat_server.MessageService.{handle_public_message, handle_private_message}
use cpp_chat_server.Repository.{Repositories}
use cpp_chat_server.Rooms.{
  Rooms, join_room, leave_room, create_room, disconnect_user, step, joins, leaves, creates,
  disconnects,
}
use cpp_chat_server.Rooms.Invariant.{IsValid, step-IsValid}
use cpp_chat_server.World.{World, Env}
use cpp_chat_server.RoomService.{
  sender_name, handle_room_operation, handle_disconnect, handle_history_request, history_entries,
}

module _ (rooms : Rooms) (user : ℤ) (v : IsValid rooms) where
  join_room-IsValid :
      (s : ℕ) (name : String) (row : Room) → IsValid (join_room rooms user s name row)
  join_room-IsValid s name row = unfold step in step-IsValid rooms (joins user s name row) v

  create_room-IsValid :
      (s : ℕ) (name : String) (row : Room) → IsValid (create_room rooms user s name row)
  create_room-IsValid s name row = unfold step in step-IsValid rooms (creates user s name row) v

  leave_room-IsValid : (name : String) → IsValid (leave_room rooms user name)
  leave_room-IsValid name = unfold step in step-IsValid rooms (leaves user name) v

  disconnect_user-IsValid : IsValid (disconnect_user rooms user)
  disconnect_user-IsValid = unfold step in step-IsValid rooms (disconnects user) v

module _ {Store : Type 0} (repos : Repositories Store) (w : World Store) (s : ℕ) (name : String)
    (v : IsValid w.rooms) where
  join-IsValid : IsValid (handle_room_operation repos s join name w).1.rooms
  unfolding handle_room_operation
  join-IsValid = grind (arith, join_room-IsValid)

  leave-IsValid : IsValid (handle_room_operation repos s leave name w).1.rooms
  unfolding handle_room_operation
  leave-IsValid = grind (arith, leave_room-IsValid)

  create-IsValid : IsValid (handle_room_operation repos s create name w).1.rooms
  unfolding handle_room_operation
  create-IsValid = grind (arith, create_room-IsValid)

  unrecognized-IsValid :
      (n : ℤ) → IsValid (handle_room_operation repos s (unrecognized n) name w).1.rooms
  unfolding handle_room_operation
  unrecognized-IsValid n = grind arith

room_operation-IsValid :
    {Store : Type 0} (repos : Repositories Store) (w : World Store) (s : ℕ) (op : RoomOperation)
    (name : String)
    → IsValid w.rooms
    → IsValid (handle_room_operation repos s op name w).1.rooms
room_operation-IsValid repos w s join name v = join-IsValid repos w s name v
room_operation-IsValid repos w s leave name v = leave-IsValid repos w s name v
room_operation-IsValid repos w s create name v = create-IsValid repos w s name v
room_operation-IsValid repos w s (unrecognized n) name v = unrecognized-IsValid repos w s name v n

disconnect-IsValid :
    {Store : Type 0} (w : World Store) (s : ℕ)
    → IsValid w.rooms
    → IsValid (handle_disconnect s w).1.rooms
unfolding handle_disconnect
disconnect-IsValid w s v = grind (arith, disconnect_user-IsValid)

on_disconnect-IsValid :
    {Store : Type 0} (w : World Store) (s : ℕ)
    → IsValid w.rooms
    → IsValid (on_disconnect s w).1.rooms
unfolding on_disconnect remove
on_disconnect-IsValid w s v = ground (arith, disconnect-IsValid w s)

entries-rooms :
    {Store : Type 0} (repos : Repositories Store) (name : String) (l : List Message)
    (w : World Store)
    → (history_entries repos name l w).1.rooms ≡ w.rooms
unfolding history_entries sender_name
entries-rooms repos name [] w = refl
entries-rooms repos name (m ∷ l) w = grind (arith, entries-rooms repos name l)

module _ {Store : Type 0} (env : Env) (repos : Repositories Store) (w : World Store) (s : ℕ) where
  -- The handlers that do not write the room maps.
  rooms-login :
      (name password : String) → (handle_login env repos s name password w).1.rooms ≡ w.rooms
  unfolding handle_login
  rooms-login name password = ground arith

  rooms-register :
      (name password : String) → (handle_register env repos s name password w).1.rooms ≡ w.rooms
  unfolding handle_register
  rooms-register name password = ground arith

  rooms-change_password :
      (old new : String) → (handle_change_password env repos s old new w).1.rooms ≡ w.rooms
  unfolding handle_change_password
  rooms-change_password old new = ground arith

  rooms-change_username :
      (new : String) → (handle_change_username env repos s new w).1.rooms ≡ w.rooms
  unfolding handle_change_username change_username
  rooms-change_username new = ground arith

  rooms-public_message :
      (content : String) → (handle_public_message env repos s content w).1.rooms ≡ w.rooms
  unfolding handle_public_message
  rooms-public_message content = ground arith

  rooms-private_message :
      (to content : String) → (handle_private_message env s to content w).1.rooms ≡ w.rooms
  unfolding handle_private_message
  rooms-private_message to content = ground arith

  rooms-history :
      (name : String) (limit : ℤ) → (handle_history_request repos s name limit w).1.rooms ≡ w.rooms
  unfolding handle_history_request
  rooms-history name limit = grind (arith, entries-rooms)

dispatch-IsValid :
    {Store : Type 0} (env : Env) (repos : Repositories Store) (w : World Store) (s : ℕ)
    (p : Payload)
    → IsValid w.rooms
    → IsValid (dispatch_payload env repos s p w).1.rooms
unfolding dispatch_payload
dispatch-IsValid env repos w s (login_request name password) v =
    rw (rooms-login env repos w s name password) v
dispatch-IsValid env repos w s (registration_request name password) v =
    rw (rooms-register env repos w s name password) v
dispatch-IsValid env repos w s (change_password_request old new) v =
    ground (arith, rooms-change_password env repos w s old new)
dispatch-IsValid env repos w s (change_username_request new) v =
    ground (arith, rooms-change_username env repos w s new)
dispatch-IsValid env repos w s (public_message content) v =
    ground (arith, rooms-public_message env repos w s content)
dispatch-IsValid env repos w s (private_message_request to content) v =
    ground (arith, rooms-private_message env repos w s to content)
dispatch-IsValid env repos w s (room_operation_request op name) v =
    ground (arith, room_operation-IsValid repos w s op name)
dispatch-IsValid env repos w s (history_message_request name limit) v =
    ground (arith, rooms-history env repos w s name limit)
dispatch-IsValid env repos w s _ v = ground arith

pub run_task-IsValid :
    {Store : Type 0} (repos : Repositories Store) (env : Env) (task : Task) (w : World Store)
    → IsValid w.rooms
    → IsValid (run_task repos env task w).1.rooms
unfolding run_task dispatch_message
run_task-IsValid repos env (message s e) w v = dispatch-IsValid env repos w s e.payload v
run_task-IsValid repos env (closed s) w v = on_disconnect-IsValid w s v

-- If whoever is mapped to a room is a member of it and no active room is empty, then both still
-- hold after any list of messages and lost connections, whatever they carry and however the
-- repositories answer.
pub run_tasks-IsValid :
    {Store : Type 0} (repos : Repositories Store) (w : World Store) (l : List (Env × Task))
    → IsValid w.rooms
    → IsValid (run_tasks repos w l).rooms
unfolding run_tasks
run_tasks-IsValid repos w [] v = v
run_tasks-IsValid repos w ((env, task) ∷ l) v =
    run_tasks-IsValid repos (run_task repos env task w).1 l (run_task-IsValid repos env task w v)
