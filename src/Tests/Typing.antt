-- ===== src/Tests/Typing.antt =====
-- A client, at concrete lines and bytes.
use cpp_chat_server.Prelude.{
  ap, pos, ℕ, zero, suc, String, ◌≡◌, ◌≢◌, refl, sym, Option, none, some, List, [], ◌∷◌, map, arith,
  string_eq, int_eq, eq_iff, inl, inr, int_beq_iff,
}
use cpp_chat_server.Map.{get-empty}
use cpp_chat_server.Protocol.{
  Envelope, Payload, envelope, login_request, public_message, private_message_request, leave,
  create,
}
use cpp_chat_server.Transport.Frame.{frame}
use cpp_chat_server.Transport.Reader.{Reading, read, Parses}
use cpp_chat_server.Transport.Reader.Frames.{Reads, read-Reads}
use cpp_chat_server.Transport.Reader.Prefix.{IsFront}
use cpp_chat_server.Rooms.{no_rooms, current_room_name}
use cpp_chat_server.Rooms.Membership.{current_room_name_of}
use cpp_chat_server.World.{World}
use cpp_chat_server.RoomService.{handle_room_operation}
use cpp_chat_server.Client.State.{Client, Texts, new_client}
use cpp_chat_server.Client.Words.{is_space, is_dot, all_dots}
use cpp_chat_server.Client.Commands.{request_of}
use cpp_chat_server.Client.Commands.RoundTrip.{line_of, request_of-line_of}
use cpp_chat_server.Client.Input.Typing.{AreTypable, sent-handle_user_input}
use cpp_chat_server.Client.Agreement.{Agrees}
use cpp_chat_server.Client.Agreement.Histories.{Request, handle_all, handle_all-Agrees}
use cpp_chat_server.Client.Agreement.Operations.{create_taken-not-Agrees}
use cpp_chat_server.Client.Reader.{receive_all, listening}
use cpp_chat_server.Client.Reader.Bytes.{joined}
use cpp_chat_server.Client.Reader.Chunks as Chunks
use cpp_chat_server.Client.Writer.{connected, run, Event, sends, takes, fails}
use cpp_chat_server.Transport.Writer as Server
use cpp_chat_server.Transport.Writer.Drain.{run-drain}
use cpp_chat_server.Client.EndToEnd.{typed-read, sent-heard, drained, flat}
use cpp_chat_server.Tests.Sample.{Store, repos, world, room_of-alice, lobby, alice}

abbrev pub texts : Texts
texts = record { of_time = λ t. "noon"; value = λ ec. pos 1; message = λ ec. "failed" }

-- A wire format that tells apart the requests below.
abbrev payload_bytes : Payload → List ℕ
payload_bytes (login_request user pass) = 1 ∷ []
payload_bytes (public_message content) = 2 ∷ 2 ∷ []
payload_bytes _ = 3 ∷ []

abbrev serialize : Envelope → List ℕ
serialize e = payload_bytes e.payload

abbrev typed : List Payload
typed = login_request "alice" "secret" ∷ public_message "hello there" ∷ []

abbrev parse : List ℕ → Option Envelope
parse (suc zero ∷ []) = some (envelope (login_request "alice" "secret"))
parse (suc (suc zero) ∷ _ ∷ []) = some (envelope (public_message "hello there"))
parse _ = none

request_of-line_of_example :
    request_of "" (line_of (private_message_request "bob" "how are you"))
    ≡ some (private_message_request "bob" "how are you")
unfolding is_space is_dot all_dots
request_of-line_of_example =
    request_of-line_of "" (private_message_request "bob" "how are you") (refl, refl)

are_typable : AreTypable "" typed
unfolding is_space
are_typable = ((refl, refl), (refl, tt))

-- The second frame is half written when the write fails.
abbrev events : List Event
events =
    sends (envelope (login_request "alice" "secret"))
    ∷ takes 3
    ∷ sends (envelope (public_message "hello there"))
    ∷ takes 9
    ∷ takes 5
    ∷ fails
    ∷ []

are_parsed : Parses parse (map serialize (map envelope typed)) (map envelope typed)
are_parsed = (omega arith, omega arith, refl, (omega arith, omega arith, refl, tt))

typed-read_example :
    IsFront parse (read parse (run serialize connected events).wire) (map envelope typed)
typed-read_example =
    typed-read serialize parse typed events are_typable
      (sym (sent-handle_user_input typed new_client are_typable)) are_parsed

read-Reads_example :
    Reads parse (0 ∷ 0 ∷ 0 ∷ 1 ∷ 1 ∷ 0 ∷ []) (read parse (0 ∷ 0 ∷ 0 ∷ 1 ∷ 1 ∷ 0 ∷ []))
    × ((r : Reading Envelope)
        → Reads parse (0 ∷ 0 ∷ 0 ∷ 1 ∷ 1 ∷ 0 ∷ []) r
        → read parse (0 ∷ 0 ∷ 0 ∷ 1 ∷ 1 ∷ 0 ∷ []) ≡ r)
read-Reads_example = read-Reads parse (0 ∷ 0 ∷ 0 ∷ 1 ∷ 1 ∷ 0 ∷ [])

abbrev chunks : List (List ℕ)
chunks = (0 ∷ 0 ∷ []) ∷ (0 ∷ 1 ∷ 1 ∷ 0 ∷ []) ∷ (0 ∷ 0 ∷ 2 ∷ 2 ∷ []) ∷ []

receive_all-Agrees_example :
    Chunks.Agrees parse texts
      (receive_all parse texts chunks (listening new_client))
      (read parse (joined chunks))
      new_client
receive_all-Agrees_example = Chunks.receive_all-Agrees parse texts chunks new_client

abbrev in_lobby : Client
in_lobby = record new_client { current_room = "lobby" }

abbrev requests : List Request
requests =
    record { session = 1; operation = leave; room_name = "lobby" }
    ∷ record { session = 2; operation = leave; room_name = "lobby" }
    ∷ []

bob-other : ((handle_room_operation repos 1 leave "lobby" world).1.session 2).user_id ≢ some (pos 7)
unfolding handle_room_operation
bob-other = ground (arith, int_beq_iff (pos 8) (pos 7))

-- alice leaves the lobby, and then bob does.
handle_all-Agrees_example : Agrees texts in_lobby 1 (pos 7) (handle_all repos requests world)
handle_all-Agrees_example =
    handle_all-Agrees repos 1 (pos 7) texts in_lobby "alice" requests world refl refl refl
      (
        inl (refl, sym (current_room_name_of world.rooms (pos 7) "lobby" room_of-alice)),
        (inr (omega arith, bob-other), tt),
      )
      (sym (current_room_name_of world.rooms (pos 7) "lobby" room_of-alice))

-- alice is in no room, and the name is taken.
abbrev outside : World Store
outside = record world { rooms = no_rooms }

nowhere : ◌≢◌ {A = String} "lobby" (current_room_name outside.rooms (pos 7))
unfolding current_room_name
nowhere e = ground (arith, get-empty {V = String} (pos 7), eq_iff "lobby" "")

create_taken-not-Agrees_example :
    ¬ Agrees texts new_client 1 (pos 7) (handle_room_operation repos 1 create "lobby" outside).1
create_taken-not-Agrees_example =
    create_taken-not-Agrees repos texts new_client outside 1 (pos 7) "alice" refl refl refl "lobby"
      lobby (alice ∷ []) refl nowhere

-- The server writes two messages to the connection, the second one while the first is under way.
abbrev server_events : List Server.Event
server_events =
    Server.sends (frame (1 ∷ [])) ∷ Server.sends (frame (2 ∷ 2 ∷ [])) ∷ Server.writes ∷ []

abbrev pieces : List (List ℕ)
pieces = (0 ∷ 0 ∷ 0 ∷ []) ∷ (1 ∷ 1 ∷ 0 ∷ 0 ∷ []) ∷ (0 ∷ 2 ∷ 2 ∷ 2 ∷ []) ∷ []

joined-pieces : joined pieces ≡ flat (drained server_events).written
unfolding frame
joined-pieces = ap (λ (w : Server.Writer). flat w.written) (sym (run-drain server_events refl))

sent-heard_example :
    (receive_all parse texts pieces (listening new_client)).client
    ≡ Chunks.handle_all texts (map envelope typed) new_client
sent-heard_example =
    sent-heard serialize parse texts server_events (map envelope typed) pieces new_client refl refl
      joined-pieces are_parsed
