-- ===== src/Tester.antt =====
-- tester/src/main.cpp: the clients of the load test, with their counters. The counters are what the program
-- prints; the pauses and the threads are left out.
pub mod Counting
use cpp_chat_server.Prelude.{
  ℕ, ◌+◌, String, Bool, true, false, Option, none, some, List, [], ◌∷◌, ◌++◌, concat, decimal,
  if◌then◌else◌,
}
use cpp_chat_server.Protocol.{
  Payload, Envelope, envelope, registration_request, registration_response, login_request,
  login_response, room_operation_request, join, public_message,
}
use cpp_chat_server.Transport.Errors.{ErrorCode, success}
use cpp_chat_server.Client.State.{Client, Texts, out, print, send}
use cpp_chat_server.Client.Inbox.{handle_server_message}

-- The global counters.
pub record Counters : Type 0 where
  pub connected_clients : ℕ
  pub successful_logins : ℕ
  pub messages_sent : ℕ
  pub messages_received : ℕ

pub record TestClient : Type 0 where
  -- the object's address, which its user is named after
  pub address : ℕ
  pub client : Client
  pub counters : Counters

abbrev on_client : (Client → Client) → TestClient → TestClient
on_client f t = record t { client = f t.client }

test_name : ℕ → String
test_name address = concat ("testuser_" ∷ decimal address ∷ [])

unfoldable pub on_connect_register : TestClient → TestClient
unfolding send test_name
on_connect_register t =
    on_client (send (envelope (registration_request (test_name t.address) "123456"))) (record t {
      counters = record t.counters { connected_clients = t.counters.connected_clients + 1 };
    })

unfoldable pub on_connect_login : TestClient → TestClient
unfolding send test_name
on_connect_login t = on_client (send (envelope (login_request (test_name t.address) "123456"))) t

-- The switch of the overridden handler.
follow_up : Payload → TestClient → TestClient
unfolding on_connect_login print
follow_up (registration_response true message) t =
    on_connect_login (on_client (print (out "register success")) t)
follow_up (login_response true message user_id) t =
    on_client (print (out "logged in success")) (record t {
      counters = record t.counters { successful_logins = t.counters.successful_logins + 1 };
    })
follow_up _ t = t

-- handle_server_message, which calls that of Client first
unfoldable pub receive : Texts → Envelope → TestClient → TestClient
unfolding follow_up handle_server_message
receive texts e t = follow_up e.payload (record t {
  client = handle_server_message texts e t.client;
  counters = record t.counters { messages_received = t.counters.messages_received + 1 };
})

-- The timer of `schedule_send`, with the count of the clock, and whether it is set again.
unfoldable pub timer : ErrorCode → ℕ → TestClient → TestClient × Bool
unfolding send
timer success clock t = (
  on_client
      (send
        (envelope (public_message (concat ("Automatic message, time is " ∷ decimal clock ∷ [])))))
      (record t { counters = record t.counters { messages_sent = t.counters.messages_sent + 1 } }),
  true,
)
timer _ clock t = (t, false)

-- The handler that main gives to `connect`.
unfoldable pub when_connected : ErrorCode → TestClient → TestClient
unfolding on_connect_register
when_connected success t = on_connect_register t
when_connected _ t = t

-- What main does with each client after all of them were told to connect; `start_sending` sets the timer.
unfoldable pub join_room_1 : TestClient → TestClient
unfolding send
join_room_1 t = on_client (send (envelope (room_operation_request join "room1"))) t

-- What happens to one client, in the order in which its thread and main come to it.
pub data Event : Type 0 where
  connects : ErrorCode → Event
  receives : Envelope → Event
  joins : Event
  fires : ErrorCode → ℕ → Event

unfoldable pub step : Texts → TestClient → Event → TestClient
unfolding when_connected receive join_room_1 timer
step texts t (connects ec) = when_connected ec t
step texts t (receives e) = receive texts e t
step texts t joins = join_room_1 t
step texts t (fires ec clock) = (timer ec clock t).0

unfoldable pub run : Texts → TestClient → List Event → TestClient
unfolding step
run texts t [] = t
run texts t (e ∷ l) = run texts (step texts t e) l
