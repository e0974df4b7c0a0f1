-- ===== src/Server.antt =====
-- server/src/core/Server.cpp: which handler an envelope goes to, and the tasks that the connections
-- post to the io_context. The log lines are left out.
pub mod Handlers
pub mod Identity
pub mod Placement
pub mod Closing
pub mod Gate
pub mod Accept
use cpp_chat_server.Prelude.{ℕ, ◌≡◌, Bool, true, false, List, [], ◌∷◌, ◌++◌, if◌then◌else◌}
use cpp_chat_server.Protocol.{
  Payload, not_set, login_request, login_response, registration_request, registration_response,
  change_password_request, change_password_response, change_username_request,
  change_username_response, public_message, message_broadcast, private_message_request,
  room_operation_request, room_operation_response, history_message_request,
  history_message_response, server_notification, error_response, Envelope, error,
}
use cpp_chat_server.Exec.{Exec, pure, when, ◌>>=◌, ◌>>◌}
use cpp_chat_server.Repository.{Repositories}
use cpp_chat_server.World.{World, Env, send, is_authenticated, get_username, get_user_id}
use cpp_chat_server.SessionManager.{remove}
use cpp_chat_server.AuthService.{
  refuse, handle_login, handle_register, handle_change_password, handle_change_username,
}
use cpp_chat_server.RoomService.{handle_room_operation, handle_history_request, handle_disconnect}
use cpp_chat_server.MessageService.{handle_public_message, handle_private_message}

module _ {Store : Type 0} (env : Env) (repos : Repositories Store) where
  -- the second switch
  dispatch_authenticated : ℕ → Payload → Exec (World Store) (Unit {0})
  dispatch_authenticated s (change_password_request old_password new_password) =
      handle_change_password env repos s old_password new_password
  dispatch_authenticated s (change_username_request new_username) =
      handle_change_username env repos s new_username
  dispatch_authenticated s (public_message content) = handle_public_message env repos s content
  dispatch_authenticated s (private_message_request to content) =
      handle_private_message env s to content
  dispatch_authenticated s (room_operation_request operation room_name) =
      handle_room_operation repos s operation room_name
  dispatch_authenticated s (history_message_request room_name limit) =
      handle_history_request repos s room_name limit
  dispatch_authenticated s _ = pure tt

  -- what stands between the two switches, for every payload that the first one passes over
  guarded : ℕ → Payload → Exec (World Store) (Unit {0})
  unfolding send is_authenticated dispatch_authenticated
  guarded s payload = do
    authenticated ← is_authenticated s
    if authenticated
        then dispatch_authenticated s payload
        else send s (refuse "Authentication required.")

  dispatch_payload : ℕ → Payload → Exec (World Store) (Unit {0})
  unfolding guarded
  dispatch_payload s (login_request username password) = handle_login env repos s username password
  dispatch_payload s (registration_request username password) =
      handle_register env repos s username password
  dispatch_payload s payload = guarded s payload

  unfoldable pub dispatch_message : ℕ → Envelope → Exec (World Store) (Unit {0})
  unfolding dispatch_payload
  dispatch_message s e = dispatch_payload s e.payload

-- The task that `onDisconnect` posts. The log line of an authenticated session reads its name and id.
unfoldable pub on_disconnect : {Store : Type 0} → ℕ → Exec (World Store) (Unit {0})
unfolding is_authenticated get_username get_user_id
on_disconnect s = do
  authenticated ← is_authenticated s
  when authenticated do get_username s; get_user_id s; handle_disconnect s
  remove s

-- The work that a connection gives to the io_context: `onMessage` and `onDisconnect` post it, and any
-- thread of the pool may take it.
pub data Task : Type 0 where
  message : ℕ → Envelope → Task
  closed : ℕ → Task

module _ {Store : Type 0} (repos : Repositories Store) where
  unfoldable pub run_task : Env → Task → Exec (World Store) (Unit {0})
  run_task env (message s e) = dispatch_message env repos s e
  run_task env (closed s) = on_disconnect s

  -- The tasks in the order in which they are taken. An exception leaves what was written.
  unfoldable pub run_tasks : World Store → List (Env × Task) → World Store
  run_tasks w [] = w
  run_tasks w ((env, task) ∷ l) = run_tasks (run_task env task w).1 l
