-- ===== src/Tests/Messages.antt =====
-- Messages and the history, at concrete requests.
use mathlib.Core.List.{reverse}
use cpp_chat_server.Prelude.{
  List, ap, some, ℤ, pos, String, ◌≡◌, ◌≢◌, refl, true, Option, [], ◌∷◌, ◌++◌, map, arith,
  string_eq, int_eq, nat_eq, eq_iff, ℕ, int_beq_iff, to_string, if◌then◌else◌,
}
use cpp_chat_server.Map.{get}
use cpp_chat_server.Exec.{ok}
use cpp_chat_server.Domain.{User, default_message}
use cpp_chat_server.Protocol.{Envelope, envelope, message_broadcast, history_message_response}
use cpp_chat_server.Rooms.{current_room_id, current_room_name}
use cpp_chat_server.RoomService.{handle_history_request, recipients, members_of}
use cpp_chat_server.RoomService.History.{shown, history_lem}
use cpp_chat_server.MessageService.{handle_public_message, handle_private_message}
use cpp_chat_server.MessageService.Delivery.{
  sent_to, private_message-private, public_message-delivers,
}
use cpp_chat_server.MessageService.Private.{reaches, answer_to, private_message-delivers}
use cpp_chat_server.Rooms.Membership.{member, current_room_name_of}
use cpp_chat_server.RoomService.Recipients.{Has}
use cpp_chat_server.Tests.Sample.{
  AreIdentified-world, IsPlaced-rooms, find_id, repos, env, alice, world, stored, room_of-alice,
  find-bob,
}

lobby-empty : ◌≢◌ {A = String} "lobby" ""
lobby-empty = ground (arith, eq_iff "lobby" "")

-- What alice says.
abbrev said : String → Envelope
said room = envelope (
    message_broadcast (record {
      from_user_id = to_string (pos 7);
      from_username = "alice";
      content = "hi";
      timestamp = env.now;
      room_name = some room;
    }))

private_message-delivers_example :
    let message = said (current_room_name world.rooms (pos 7)) in
    let after = handle_private_message env 1 "bob" "hi" world in
    (after.0 ≡ ok tt)
    × (sent_to 2 after.1.sent
        ≡ sent_to 2 world.sent ++ (if reaches world (pos 7) "bob" 2 then message ∷ [] else []))
    × (sent_to 1 after.1.sent ≡ sent_to 1 world.sent ++ answer_to world (pos 7) "bob" message ∷ [])
    × (after.1 ≡ record world { sent = after.1.sent })
private_message-delivers_example =
    private_message-delivers env world 1 "bob" "hi" "alice" (pos 7) 2 refl refl refl
      AreIdentified-world (omega arith)

reaches_test : reaches world (pos 7) "bob" 2 ≡ true
reaches_test =
    rw (current_room_name_of world.rooms (pos 7) "lobby" room_of-alice, find-bob)
      (ground (arith, eq_iff "lobby" "", int_beq_iff (pos 8) (pos 7)))

private_message-private_example :
    sent_to 3 (handle_private_message env 1 "bob" "hi" world).1.sent ≡ sent_to 3 world.sent
private_message-private_example =
    private_message-private env world 1 "bob" "hi" 3 (omega arith) (λ h. ground (arith, find-bob))

public_message-delivers_example :
    let to = recipients (members_of (get world.rooms.active "lobby")) (pos 0) in
    (handle_public_message env repos 1 "hi" world
      ≡ (ok tt, record world { sent = world.sent ++ map (λ t. (t, said "lobby")) to }))
    × ((t : ℕ) × (member world.rooms.active "lobby" (pos 7) ≡ some t) × Has t to)
public_message-delivers_example =
    public_message-delivers env world 1 repos "hi" "lobby" "alice" (pos 7) true
      (record default_message {
        sender_id = pos 7;
        room_id = current_room_id world.rooms (pos 7);
        content = "hi";
      })
      (alice ∷ []) refl refl refl room_of-alice lobby-empty
      (ground (arith, int_beq_iff (pos 7) (pos 0))) IsPlaced-rooms refl

-- What a look-up in the sample database answers.
abbrev table : ℤ → Option User
table id = find_id id (alice ∷ [])

history_lem_example :
    (st' : List User) × (handle_history_request repos 1 "lobby" (pos 10) world ≡ (
      ok tt,
      record world {
        store = st';
        sent =
            world.sent
            ++ (
              1,
              envelope (
                  history_message_response "lobby"
                    (map (shown table "lobby") (reverse (stored ∷ [])))),
            )
              ∷ [];
      },
    ))
    × (st' ≡ alice ∷ [])
history_lem_example =
    history_lem repos (λ st. st ≡ alice ∷ []) table
      (record { reads = λ id st h. (st, ap (λ l. (some (find_id id l), st)) h, h) }) world 1 (pos 7)
      "lobby" (pos 10) (stored ∷ []) (alice ∷ []) refl refl room_of-alice refl refl
