-- ===== src/Client/Input.antt =====
-- handle_user_input and print_help of client/src/main.cpp: the loop over the lines that a user types.
pub mod Typing
use cpp_chat_server.Prelude.{
  ℕ, concat, decimal, String, Bool, true, false, Option, none, some, List, [], ◌∷◌, ◌==◌,
  if◌then◌else◌, string_eq,
}
use cpp_chat_server.Protocol.{Payload, envelope}
use cpp_chat_server.Client.Words.{behind}
use cpp_chat_server.Client.Commands.{request_of}
use cpp_chat_server.Client.State.{Client, Line, out, print, print_all, send, close}

-- print_help
unfoldable pub help : List Line
help =
    out "--- Chat Client Commands ---"
    ∷ out "/register <username> <password>"
    ∷ out "/login <username> <password>"
    ∷ out "/create <room_name>"
    ∷ out "/join <room_name>"
    ∷ out "/leave"
    ∷ out "/quit"
    ∷ out "@<username> <message>  (to send a private message)"
    ∷ out "any other text for public message in the current room."
    ∷ out "---------------------------"
    ∷ []

-- What is printed where `should_send` is false: a `/register` that lacks a word, or a `/leave`.
refusal : Option String → Line
refusal (some _) = out "[System] Usage: /register <username> <password>"
refusal none = out "[System] You are not in any room to leave."

unfoldable pub send_or_refuse : String → Option Payload → Client → Client
unfolding refusal behind print send
send_or_refuse line (some p) c = send (envelope p) c
send_or_refuse line none c = print (refusal (behind "/register " line)) c

-- One line that is not "/quit".
unfoldable pub take_line : String → Client → Client
unfolding send_or_refuse request_of
take_line line c = if line == "" then c else send_or_refuse line (request_of c.current_room line) c

finish : Client → Client
unfolding print
finish c = print (out "[System] Input thread finished.") c

-- The loop, on the lines that std::getline gives before the input ends.
unfoldable pub handle_lines : List String → Client → Client
unfolding take_line finish close
handle_lines [] c = finish c
handle_lines (line ∷ l) c =
    let rest = handle_lines l (take_line line c) in
    if line == "/quit" then finish (close c) else rest

unfoldable pub handle_user_input : List String → Client → Client
unfolding handle_lines print_all help
handle_user_input lines c = handle_lines lines (print_all help c)

-- signal_handler, which main sets for SIGINT and SIGTERM; its text starts with a line break
unfoldable pub signal_handler : ℕ → Client → Client
unfolding print_all close
signal_handler signum c = close (
    print_all
      (out ""
        ∷ out (
            concat (
              "[System] Interrupt signal (" ∷ decimal signum ∷ ") received. Shutting down..." ∷ []))
        ∷ [])
      c)
