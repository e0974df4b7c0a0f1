-- ===== src/Client/Inbox.antt =====
-- handle_server_message of client/src/client.cpp: what a client makes of an envelope.
use cpp_chat_server.Prelude.{
  pos, String, Bool, true, Option, none, some, [], ◌∷◌, map, if◌then◌else◌, concat, to_string,
}
use cpp_chat_server.Protocol.{
  MessageBroadcast, RoomOperation, join, leave, create, Envelope, envelope, Payload, login_response,
  registration_response, change_password_response, change_username_response, message_broadcast,
  room_operation_response, history_message_request, history_message_response, server_notification,
  error_response,
}
use cpp_chat_server.Client.State.{out, Client, Texts, set_current_room, print, print_all, send}

-- A field that is not set reads as "".
abbrev or_empty : Option String → String
or_empty none = ""
or_empty (some s) = s

-- A message as it is printed, behind `indent`.
unfoldable pub message_text : Texts → String → MessageBroadcast → String
message_text texts indent m = concat (
    indent
    ∷ "["
    ∷ or_empty m.room_name
    ∷ " | "
    ∷ m.from_username
    ∷ " at "
    ∷ texts.of_time m.timestamp
    ∷ "]: "
    ∷ m.content
    ∷ [])

-- The room and the requests of a client after the answer to a room operation: after a JOIN that was
-- done, the last 20 messages are asked for.
unfoldable pub follow : RoomOperation → Bool → String → Client → Client
unfolding set_current_room send
follow join true room c =
    send (envelope (history_message_request room (pos 20))) (set_current_room room c)
follow create _ room c = set_current_room room c
follow leave true room c = set_current_room "" c
follow _ _ room c = c

unfoldable pub handle_payload : Texts → Payload → Client → Client
unfolding message_text follow print print_all
handle_payload texts (message_broadcast m) c = print (out (message_text texts "" m)) c
handle_payload texts (login_response _ message _) c =
    print (out (concat ("[System] Login response: " ∷ message ∷ []))) c
handle_payload texts (registration_response success message) c =
    print
      (out (
        if success
        then "[System] Registration successful! You can now log in."
        else concat ("[System] Registration failed: " ∷ message ∷ [])))
      c
handle_payload texts (change_password_response _ message) c =
    print (out (concat ("[System] Change password response: " ∷ message ∷ []))) c
handle_payload texts (change_username_response _ message _) c =
    print (out (concat ("[System] Change username response: " ∷ message ∷ []))) c
handle_payload texts (room_operation_response r) c =
    print (out (concat ("[System] Room operation response: " ∷ r.message ∷ [])))
      (follow r.operation r.success r.room_name c)
handle_payload texts (history_message_response _ messages) c =
    print_all
      (out "[System] History messages:" ∷ map (λ m. out (message_text texts "  " m)) messages) c
handle_payload texts (server_notification n) c = print (out n.message) c
handle_payload texts (error_response e) c =
    print
      (out (concat ("[Error] " ∷ e.error_message ∷ " (Code: " ∷ to_string e.error_code ∷ ")" ∷ [])))
      c
handle_payload texts _ c = print (out "[System] Received an unhandled message type from server.") c

unfoldable pub handle_server_message : Texts → Envelope → Client → Client
unfolding handle_payload
handle_server_message texts e c = handle_payload texts e.payload c
