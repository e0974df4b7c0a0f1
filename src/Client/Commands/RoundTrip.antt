-- ===== src/Client/Commands/RoundTrip.antt =====
-- The lines of client/src/main.cpp from the requests that they stand for.
use Prim.Native.Char.{Char, code}
use Prim.Native.String.{String, [], ◌∷◌}
use cpp_chat_server.Prelude.{
  ◌≡◌, ◌≢◌, refl, ap, ◌∙◌, Bool, true, false, not, ◌||◌, Option, none, some, arith, ◌==◌, nat_eq,
  string_eq, eq_iff,
}
use cpp_chat_server.Protocol.{
  Payload, login_request, registration_request, room_operation_request, private_message_request,
  public_message, RoomOperation, join, leave, create, unrecognized,
}
use cpp_chat_server.Client.Words.{is_space, behind, private_pattern}
use cpp_chat_server.Client.Words.Laws.{
  ◌<>◌, is_word, is_content, credentials_lem, private_pattern_lem,
}
use cpp_chat_server.Client.Words.Laws.Commands.{
  is_word-nonempty, not_leave, behind-slash, private_pattern-none, not_empty, other_start,
  other_second,
}
use cpp_chat_server.Client.Commands.{request_of, registration, leave_or_message, message_line}

-- The line that a user types for a request, as the help text gives it.
abbrev pub line_of : Payload → String
line_of (registration_request user pass) = "/register " <> user <> " " <> pass
line_of (login_request user pass) = "/login " <> user <> " " <> pass
line_of (room_operation_request create room) = "/create " <> room
line_of (room_operation_request join room) = "/join " <> room
line_of (room_operation_request _ room) = "/leave"
line_of (private_message_request to content) = "@" <> to <> " " <> content
line_of (public_message content) = content
line_of _ = ""

-- A text that no command and no private message starts like.
abbrev pub is_plain : String → Bool
is_plain [] = false
is_plain (c ∷ s) = not (code c == b'/' || code c == b'@')

-- The requests that can be typed by a user whose client shows the room `current_room`.
abbrev pub IsTypable : String → Payload → Type 0
IsTypable current_room (registration_request user pass) =
    (is_word user ≡ true) × (is_word pass ≡ true)
IsTypable current_room (login_request user pass) = (is_word user ≡ true) × (is_word pass ≡ true)
IsTypable current_room (room_operation_request create room) = Unit {0}
IsTypable current_room (room_operation_request join room) = Unit {0}
IsTypable current_room (room_operation_request leave room) =
    (room ≡ current_room) × ◌≢◌ {A = String} room ""
IsTypable current_room (private_message_request to content) =
    (is_word to ≡ true) × (is_content content ≡ true)
IsTypable current_room (public_message content) = is_plain content ≡ true
IsTypable current_room _ = ⊥

room_line :
    (current_room : String) (op : RoomOperation) (room : String)
    → IsTypable current_room (room_operation_request op room)
    → request_of current_room (line_of (room_operation_request op room))
      ≡ some (room_operation_request op room)
unfolding request_of behind
room_line current_room create room h = refl
room_line current_room join room h = refl
room_line current_room leave room (e, ne) = ground (arith, eq_iff room "", eq_iff current_room "")
room_line current_room (unrecognized n) room h = absurd h

registration_words :
    (user pass : String)
    → is_word user ≡ true
    → is_word pass ≡ true
    → registration (user, pass) ≡ some (registration_request user pass)
unfolding registration
registration_words user pass u p = rw (is_word-nonempty user u, is_word-nonempty pass p) refl

message_of :
    (current_room line : String) (matched : Option (String × String))
    → (line == "/leave") ≡ false
    → private_pattern line ≡ matched
    → leave_or_message current_room line ≡ some (message_line line matched)
unfolding leave_or_message
message_of current_room line matched l m = rw (l, m) refl

private_line :
    (current_room to content : String)
    → is_word to ≡ true
    → is_content content ≡ true
    → request_of current_room (line_of (private_message_request to content))
      ≡ some (private_message_request to content)
unfolding request_of behind message_line
private_line current_room to content w k =
    message_of current_room _ (some (to, content))
      (not_leave "@" (to <> " " <> content) (omega arith)) (private_pattern_lem to content w k)

no_command :
    (current_room : String) (c : Char) (s : String)
    → code c ≢ b'/'
    → request_of current_room (c ∷ s) ≡ leave_or_message current_room (c ∷ s)
unfolding request_of
no_command current_room c s ne =
    rw
      (
        behind-slash c s "register " ne,
        behind-slash c s "login " ne,
        behind-slash c s "create " ne,
        behind-slash c s "join " ne,
      )
      refl

plain_line :
    (current_room content : String)
    → is_plain content ≡ true
    → request_of current_room content ≡ some (public_message content)
unfolding message_line
plain_line current_room [] h = cc
plain_line current_room (c ∷ s) h =
    no_command current_room c s (ground arith)
    ∙ message_of current_room (c ∷ s) none (not_leave c s (ground arith))
        (private_pattern-none c s (ground arith))

-- The line that the help text gives for a request is taken for that request: for a name and a
-- password that are not empty and have no spaces, any room name, LEAVE of the room that is shown,
-- if one is, a private message to such a name whose content is not empty, has no line break and
-- does not start with a space, and a public message that is not empty and starts with neither `/`
-- nor `@`.
pub request_of-line_of :
    (current_room : String) (p : Payload)
    → IsTypable current_room p
    → request_of current_room (line_of p) ≡ some p
unfolding request_of behind is_space
request_of-line_of current_room (registration_request user pass) (u, p) =
    ap registration (credentials_lem "/register" user pass refl u p)
    ∙ registration_words user pass u p
request_of-line_of current_room (login_request user pass) (u, p) =
    ap (λ r. some (login_request r.0 r.1)) (credentials_lem "/login" user pass refl u p)
request_of-line_of current_room (room_operation_request op room) h =
    room_line current_room op room h
request_of-line_of current_room (private_message_request to content) (w, k) =
    private_line current_room to content w k
request_of-line_of current_room (public_message content) h = plain_line current_room content h
request_of-line_of current_room _ h = absurd h

-- Such a line is neither empty nor the end of the input.
pub line_of-not_empty :
    (current_room : String) (p : Payload) → IsTypable current_room p → (line_of p == "") ≡ false
line_of-not_empty current_room (registration_request user pass) h = not_empty "/" _
line_of-not_empty current_room (login_request user pass) h = not_empty "/" _
line_of-not_empty current_room (room_operation_request create room) h = not_empty "/" _
line_of-not_empty current_room (room_operation_request join room) h = not_empty "/" _
line_of-not_empty current_room (room_operation_request leave room) h = refl
line_of-not_empty current_room (private_message_request to content) h = not_empty "@" _
line_of-not_empty current_room (public_message []) h = cc
line_of-not_empty current_room (public_message (c ∷ s)) h = not_empty c s
line_of-not_empty current_room _ h = absurd h

pub line_of-not_quit :
    (current_room : String) (p : Payload)
    → IsTypable current_room p
    → (line_of p == "/quit") ≡ false
line_of-not_quit current_room (registration_request user pass) h =
    other_second "/" "r" "q" _ "uit" (ground arith)
line_of-not_quit current_room (login_request user pass) h =
    other_second "/" "l" "q" _ "uit" (ground arith)
line_of-not_quit current_room (room_operation_request create room) h =
    other_second "/" "c" "q" _ "uit" (ground arith)
line_of-not_quit current_room (room_operation_request join room) h =
    other_second "/" "j" "q" _ "uit" (ground arith)
line_of-not_quit current_room (room_operation_request leave room) h = refl
line_of-not_quit current_room (private_message_request to content) h =
    other_start "@" "/" _ "quit" (ground arith)
line_of-not_quit current_room (public_message []) h = cc
line_of-not_quit current_room (public_message (c ∷ s)) h = other_start c "/" s "quit" (ground arith)
line_of-not_quit current_room _ h = absurd h
