-- ===== src/Tests/Load.antt =====
-- A client of the load test.
use cpp_chat_server.Prelude.{◌≡◌, refl, true, List, [], ◌∷◌}
use cpp_chat_server.Protocol.{envelope, registration_response, login_response}
use cpp_chat_server.Transport.Errors.{success, eof}
use cpp_chat_server.Client.State.{new_client}
use cpp_chat_server.Tester.{TestClient, Event, connects, receives, joins, fires, run}
use cpp_chat_server.Tests.Typing.{texts}

abbrev fresh : TestClient
fresh = record {
  address = 42;
  client = new_client;
  counters = record {
    connected_clients = 0;
    successful_logins = 0;
    messages_sent = 0;
    messages_received = 0;
  };
}

-- It joins before it is logged in, and its timer fires and is then cancelled.
abbrev test_run : List Event
test_run =
    connects success
    ∷ joins
    ∷ receives (envelope (registration_response true "ok"))
    ∷ receives (envelope (login_response true "ok" "1"))
    ∷ fires success 1000
    ∷ fires eof 2000
    ∷ []

-- One connection, one login, one message that was sent, and two envelopes that were received.
run-test_run : (run texts fresh test_run).counters ≡ record {
  connected_clients = 1;
  successful_logins = 1;
  messages_sent = 1;
  messages_received = 2;
}
unfolding run
run-test_run = refl
