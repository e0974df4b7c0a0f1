-- ===== src/Tester/Counting.antt =====
-- What the clients of tester/src/main.cpp count, against what they send.
use cpp_chat_server.Prelude.{
  pos, ℕ, suc, ◌+◌, ◌≡◌, refl, sym, ap, ◌∙◌, String, Bool, true, false, List, [], ◌∷◌, ◌++◌, map,
  arith, if◌then◌else◌,
}
use cpp_chat_server.Protocol.{
  history_message_request, Payload, Envelope, envelope, registration_request, registration_response,
  login_response, public_message, history_message_response, room_operation_response, RoomOperation,
  join, leave, create, unrecognized,
}
use cpp_chat_server.Transport.Errors.{success}
use cpp_chat_server.Client.State.{
  Client, Texts, Line, out, print, print_all, send, set_current_room,
}
use cpp_chat_server.Client.Inbox.{handle_payload, handle_server_message, follow, message_text}
use cpp_chat_server.Tester.{
  TestClient, Event, connects, receives, joins, fires, step, run, on_connect_register,
  on_connect_login, when_connected, receive, follow_up, timer, join_room_1,
}

-- How many of the sent envelopes are of a kind.
abbrev pub count : (Payload → Bool) → List Envelope → ℕ
count kind [] = 0
count kind (e ∷ l) = let rest = count kind l in if kind e.payload then suc rest else rest

abbrev pub is_registration : Payload → Bool
is_registration (registration_request username password) = true
is_registration _ = false

abbrev pub is_public : Payload → Bool
is_public (public_message content) = true
is_public _ = false

count-append :
    (kind : Payload → Bool) (l m : List Envelope)
    → count kind (l ++ m) ≡ count kind l + count kind m
count-append kind [] m = omega arith
count-append kind (e ∷ l) m = ground (arith, count-append kind l m)

-- One more envelope, of another kind or of the kind.
module _ (kind : Payload → Bool) (l : List Envelope) (e : Envelope) (n : ℕ)
    (h : n ≡ count kind l) where
  count-other : kind e.payload ≡ false → n ≡ count kind (l ++ e ∷ [])
  count-other k = ground (arith, count-append kind l (e ∷ []))

  count-one : kind e.payload ≡ true → n + 1 ≡ count kind (l ++ e ∷ [])
  count-one k = ground (arith, count-append kind l (e ∷ []))

sent-print_all : (l : List Line) (c : Client) → (print_all l c).sent ≡ c.sent
unfolding print_all print
sent-print_all [] c = refl
sent-print_all (line ∷ l) c = sent-print_all l (print line c)

-- The requests for the history that a client sends by itself are neither registrations nor public messages.
module _ (kind : Payload → Bool)
    (neither : (room : String) → kind (history_message_request room (pos 20)) ≡ false) where
  count-follow :
      (op : RoomOperation) (done : Bool) (room : String) (c : Client)
      → count kind (follow op done room c).sent ≡ count kind c.sent
  unfolding follow send set_current_room
  count-follow join true room c = ground (
    arith,
    count-append kind c.sent (envelope (history_message_request room (pos 20)) ∷ []),
    neither room,
  )
  count-follow join false room c = refl
  count-follow create _ room c = refl
  count-follow leave true room c = refl
  count-follow leave false room c = refl
  count-follow (unrecognized n) _ room c = refl

  count-handle :
      (texts : Texts) (p : Payload) (c : Client)
      → count kind (handle_payload texts p c).sent ≡ count kind c.sent
  unfolding handle_payload print
  count-handle texts (room_operation_response r) c =
      count-follow r.operation r.success r.room_name c
  count-handle texts (history_message_response _ messages) c =
      ap (count kind) (sent-print_all (map (λ m. out (message_text texts "  " m)) messages) _)
  count-handle texts _ c = refl

-- The counters of connections and of messages say what was sent.
pub record IsHonest (t : TestClient) : Type 0 where
  pub connections : t.counters.connected_clients ≡ count is_registration t.client.sent
  pub messages : t.counters.messages_sent ≡ count is_public t.client.sent

follow_up-IsHonest : (p : Payload) (t : TestClient) → IsHonest t → IsHonest (follow_up p t)
unfolding follow_up on_connect_login send print
follow_up-IsHonest (registration_response true message) t h = record {
  connections = count-other is_registration t.client.sent _ _ h.connections refl;
  messages = count-other is_public t.client.sent _ _ h.messages refl;
}
follow_up-IsHonest (registration_response false message) t h = h
follow_up-IsHonest (login_response true message user_id) t h = record {
  connections = h.connections;
  messages = h.messages;
}
follow_up-IsHonest (login_response false message user_id) t h = h
follow_up-IsHonest _ t h = h

step-IsHonest :
    (texts : Texts) (t : TestClient) (e : Event) → IsHonest t → IsHonest (step texts t e)
unfolding step when_connected on_connect_register join_room_1 timer receive send
    handle_server_message
step-IsHonest texts t (connects success) h = record {
  connections = count-one is_registration t.client.sent _ _ h.connections refl;
  messages = count-other is_public t.client.sent _ _ h.messages refl;
}
step-IsHonest texts t (connects _) h = h
step-IsHonest texts t joins h = record {
  connections = count-other is_registration t.client.sent _ _ h.connections refl;
  messages = count-other is_public t.client.sent _ _ h.messages refl;
}
step-IsHonest texts t (fires success clock) h = record {
  connections = count-other is_registration t.client.sent _ _ h.connections refl;
  messages = count-one is_public t.client.sent _ _ h.messages refl;
}
step-IsHonest texts t (fires _ clock) h = h
step-IsHonest texts t (receives e) h = follow_up-IsHonest e.payload _ (record {
  connections =
      h.connections ∙ sym (count-handle is_registration (λ room. refl) texts e.payload t.client);
  messages = h.messages ∙ sym (count-handle is_public (λ room. refl) texts e.payload t.client);
})

-- If the number of connections that a client of the load test counts is that of the registrations
-- it has sent, and the number of messages it counts as sent is that of its public messages, then
-- both still hold after any order of connecting, receiving, joining and timers.
pub run-IsHonest :
    (texts : Texts) (t : TestClient) (l : List Event) → IsHonest t → IsHonest (run texts t l)
unfolding run
run-IsHonest texts t [] h = h
run-IsHonest texts t (e ∷ l) h = run-IsHonest texts (step texts t e) l (step-IsHonest texts t e h)
