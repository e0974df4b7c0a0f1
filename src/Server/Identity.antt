-- ===== src/Server/Identity.antt =====
-- The sessions through the tasks of server/src/core/Server.cpp.
use cpp_chat_server.Prelude.{ℕ, List, [], ◌∷◌, arith, nat_eq}
use cpp_chat_server.Protocol.{
  Payload, login_request, registration_request, change_password_request, change_username_request,
  public_message, private_message_request, room_operation_request, history_message_request,
}
use cpp_chat_server.Server.{
  dispatch_payload, dispatch_message, on_disconnect, Task, message, closed, run_task, run_tasks,
}
use cpp_chat_server.SessionManager.{remove}
use cpp_chat_server.Repository.{Repositories}
use cpp_chat_server.World.{World, Env}
use cpp_chat_server.Session.{IsIdentified}
use cpp_chat_server.SessionManager.Index.{AreIdentified}
use cpp_chat_server.RoomService.{handle_disconnect}
use cpp_chat_server.Server.Handlers.{
  IsKnown, login-at, login-IsKnown, register-at, register-IsKnown, change_password-at,
  change_password-IsKnown, change_username-at, change_username-IsKnown, room_operation-at,
  room_operation-IsKnown, public_message-at, public_message-IsKnown, private_message-at,
  private_message-IsKnown, history-at, history-IsKnown,
}

module _ {Store : Type 0} (env : Env) (repos : Repositories Store) (w : World Store) (s : ℕ)
    (a : AreIdentified w) where
  dispatch-at :
      (p : Payload) (t : ℕ) → IsIdentified ((dispatch_payload env repos s p w).1.session t)
  unfolding dispatch_payload
  dispatch-at (login_request name password) t = login-at env repos w s a name password t
  dispatch-at (registration_request name password) t = register-at env repos w s a name password t
  dispatch-at (change_password_request old new) t =
      ground (arith, a.at t, change_password-at env repos w s a old new t)
  dispatch-at (change_username_request new) t =
      ground (arith, a.at t, change_username-at env repos w s a new t)
  dispatch-at (public_message content) t =
      ground (arith, a.at t, public_message-at env repos w s a content t)
  dispatch-at (private_message_request to content) t =
      ground (arith, a.at t, private_message-at env repos w s a to content t)
  dispatch-at (room_operation_request op name) t =
      ground (arith, a.at t, room_operation-at env repos w s a op name t)
  dispatch-at (history_message_request name limit) t =
      ground (arith, a.at t, history-at env repos w s a name limit t)
  dispatch-at _ t = ground (arith, a.at t)

  dispatch-IsKnown : (p : Payload) → IsKnown (dispatch_payload env repos s p w).0
  unfolding dispatch_payload
  dispatch-IsKnown (login_request name password) = login-IsKnown env repos w s a name password
  dispatch-IsKnown (registration_request name password) =
      register-IsKnown env repos w s a name password
  dispatch-IsKnown (change_password_request old new) =
      ground (arith, change_password-IsKnown env repos w s a old new)
  dispatch-IsKnown (change_username_request new) =
      ground (arith, change_username-IsKnown env repos w s a new)
  dispatch-IsKnown (public_message content) =
      ground (arith, public_message-IsKnown env repos w s a content)
  dispatch-IsKnown (private_message_request to content) =
      ground (arith, private_message-IsKnown env repos w s a to content)
  dispatch-IsKnown (room_operation_request op name) =
      ground (arith, room_operation-IsKnown env repos w s a op name)
  dispatch-IsKnown (history_message_request name limit) =
      ground (arith, history-IsKnown env repos w s a name limit)
  dispatch-IsKnown _ = ground arith

  on_disconnect-at : (t : ℕ) → IsIdentified ((on_disconnect s w).1.session t)
  unfolding on_disconnect remove handle_disconnect
  on_disconnect-at t = ground (arith, a.at t)

  on_disconnect-IsKnown : IsKnown (on_disconnect s w).0
  unfolding on_disconnect remove handle_disconnect
  on_disconnect-IsKnown = ground (arith, a.at s)

-- No task, whatever it is and whoever sent it, leaves a session that is authenticated without its
-- user, or the other way round.
pub run_task-AreIdentified :
    {Store : Type 0} (repos : Repositories Store) (env : Env) (task : Task) (w : World Store)
    → AreIdentified w
    → AreIdentified (run_task repos env task w).1
unfolding run_task dispatch_message
run_task-AreIdentified repos env (message s e) w a = record {
  at = dispatch-at env repos w s a e.payload;
}
run_task-AreIdentified repos env (closed s) w a = record { at = on_disconnect-at env repos w s a }

pub run_tasks-AreIdentified :
    {Store : Type 0} (repos : Repositories Store) (w : World Store) (l : List (Env × Task))
    → AreIdentified w
    → AreIdentified (run_tasks repos w l)
unfolding run_tasks
run_tasks-AreIdentified repos w [] a = a
run_tasks-AreIdentified repos w ((env, task) ∷ l) a =
    run_tasks-AreIdentified repos (run_task repos env task w).1 l
      (run_task-AreIdentified repos env task w a)

-- From sessions that have a user id and a name exactly while they are authenticated, after any
-- list of tasks, no further message or lost connection ends in an exception of Session::getUserId
-- or Session::getUsername.
pub run_tasks-IsKnown :
    {Store : Type 0} (repos : Repositories Store) (w : World Store) (l : List (Env × Task))
    (env : Env) (task : Task)
    → AreIdentified w
    → IsKnown (run_task repos env task (run_tasks repos w l)).0
unfolding run_task dispatch_message
run_tasks-IsKnown repos w l env (message s e) a =
    dispatch-IsKnown env repos _ s (run_tasks-AreIdentified repos w l a) e.payload
run_tasks-IsKnown repos w l env (closed s) a =
    on_disconnect-IsKnown env repos _ s (run_tasks-AreIdentified repos w l a)
