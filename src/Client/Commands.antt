-- ===== src/Client/Commands.antt =====
-- handle_user_input of client/src/main.cpp: the request that a line stands for.
pub mod RoundTrip
use cpp_chat_server.Prelude.{
  String, Bool, true, false, ◌||◌, Option, none, some, ◌==◌, if◌then◌else◌, string_eq,
}
use cpp_chat_server.Protocol.{
  Payload, login_request, registration_request, room_operation_request, private_message_request,
  public_message, join, leave, create,
}
use cpp_chat_server.Client.Words.{behind, credentials, private_pattern}

-- The last branch: a private message, or a public one.
unfoldable pub message_line : String → Option (String × String) → Payload
message_line line none = public_message line
message_line line (some (to, content)) = private_message_request to content

-- `/leave` and what comes behind it
unfoldable pub leave_or_message : String → String → Option Payload
unfolding message_line private_pattern
leave_or_message current_room line =
    if line == "/leave"
    then (if current_room == "" then none else some (room_operation_request leave current_room))
    else some (message_line line (private_pattern line))

join_or_other : String → String → Option String → Option Payload
unfolding leave_or_message
join_or_other current_room line (some room) = some (room_operation_request join room)
join_or_other current_room line none = leave_or_message current_room line

create_or_other : String → String → Option String → Option Payload
unfolding join_or_other behind
create_or_other current_room line (some room) = some (room_operation_request create room)
create_or_other current_room line none = join_or_other current_room line (behind "/join " line)

login_or_other : String → String → Option String → Option Payload
unfolding create_or_other behind credentials
login_or_other current_room line (some _) =
    let (user, pass) = credentials line in some (login_request user pass)
login_or_other current_room line none = create_or_other current_room line (behind "/create " line)

-- A registration without a name or a password is not sent.
unfoldable pub registration : String × String → Option Payload
registration (user, pass) =
    if user == "" || pass == "" then none else some (registration_request user pass)

register_or_other : String → String → Option String → Option Payload
unfolding login_or_other behind credentials registration
register_or_other current_room line (some _) = registration (credentials line)
register_or_other current_room line none = login_or_other current_room line (behind "/login " line)

-- The chain of conditions for a line that is neither empty nor "/quit"; `none` is `should_send = false`.
unfoldable pub request_of : String → String → Option Payload
unfolding register_or_other behind
request_of current_room line = register_or_other current_room line (behind "/register " line)
