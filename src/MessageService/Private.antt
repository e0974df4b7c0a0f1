-- ===== src/MessageService/Private.antt =====
-- handlePrivateMessage of server/src/service/MessageService.cpp: what each session gets.
use cpp_chat_server.Prelude.{
  ℤ, ℕ, String, ◌≡◌, ◌≢◌, refl, ap, Bool, true, false, not, Option, none, some, List, [], ◌∷◌, ◌++◌,
  arith, ◌==◌, ◌&&◌, if◌then◌else◌, string_eq, eq_iff, nat_eq, nat_beq_iff, int_eq, int_beq_iff,
  to_string,
}
use cpp_chat_server.Map.{get}
use cpp_chat_server.Exec.{ok}
use cpp_chat_server.Protocol.{Envelope, envelope, message_broadcast}
use cpp_chat_server.Rooms.{current_room_name}
use cpp_chat_server.World.{World, Env}
use cpp_chat_server.SessionManager.Index.{AreIdentified}
use cpp_chat_server.MessageService.{
  handle_private_message, chat_message, not_in_room, not_online, to_yourself,
}
use cpp_chat_server.MessageService.Delivery.{sent_to, sent_to_other, sent_to_self}

append_none : (l : List Envelope) → l ++ [] ≡ l
append_none [] = refl
append_none (x ∷ l) = ap (◌∷◌ x) (append_none l)

abbrev is_user : Option ℤ → ℤ → Bool
is_user none user = false
is_user (some u) user = u == user

-- The session of another user that can be written to.
abbrev is_reachable : {Store : Type 0} → World Store → ℤ → ℕ → Bool
is_reachable w sender t = (w.session t).authenticated && not (is_user (w.session t).user_id sender)

abbrev reached_by : {Store : Type 0} → World Store → ℤ → Option ℕ → ℕ → Bool
reached_by w sender none u = false
reached_by w sender (some t) u = t == u && is_reachable w sender t

-- Whether a private message of `sender` to a name reaches the session `u`: the sender is in a room, and the
-- index holds `u` under the name, with another user.
abbrev pub reaches : {Store : Type 0} → World Store → ℤ → String → ℕ → Bool
reaches w sender to u =
    not (current_room_name w.rooms sender == "")
    && reached_by w sender (get w.manager.sessions_by_username to) u

abbrev answer_for : {Store : Type 0} → World Store → ℤ → String → Envelope → Option ℕ → Envelope
answer_for w sender to message none = not_online to
answer_for w sender to message (some t) =
    if (w.session t).authenticated
    then if is_user (w.session t).user_id sender then to_yourself else message
    else not_online to

-- What the sender gets.
abbrev pub answer_to : {Store : Type 0} → World Store → ℤ → String → Envelope → Envelope
answer_to w sender to message =
    if current_room_name w.rooms sender == ""
    then not_in_room
    else answer_for w sender to message (get w.manager.sessions_by_username to)

module _ {Store : Type 0} (env : Env) (w : World Store) (s : ℕ) where
  -- A private message by an authenticated user to any name, where sessions have a user id and a
  -- name exactly while they are authenticated, never throws. A session other than the sender's
  -- gets the message, once and with the sender's id, name, text, time and room on it, exactly if
  -- the sender is in a room with a name and the index holds that session under the name,
  -- authenticated and with another user, whatever room that user is in; otherwise it gets nothing.
  -- The sender's session gets one envelope: the same message if it was sent, and else the error
  -- that says why not. Nothing else changes.
  pub private_message-delivers :
      (to content username : String) (sender : ℤ) (u : ℕ)
      → (w.session s).authenticated ≡ true
      → (w.session s).user_id ≡ some sender
      → (w.session s).username ≡ some username
      → AreIdentified w
      → u ≢ s
      → let message : Envelope = envelope (
          message_broadcast (record {
            from_user_id = to_string sender;
            from_username = username;
            content = content;
            timestamp = env.now;
            room_name = some (current_room_name w.rooms sender);
          })) in
        let after = handle_private_message env s to content w in
        (after.0 ≡ ok tt)
        × (sent_to u after.1.sent
            ≡ sent_to u w.sent ++ (if reaches w sender to u then message ∷ [] else []))
        × (sent_to s after.1.sent ≡ sent_to s w.sent ++ answer_to w sender to message ∷ [])
        × (after.1 ≡ record w { sent = after.1.sent })
  unfolding handle_private_message chat_message
  private_message-delivers to content username sender u a i n known ne = (
    grind (arith, known.at),
    grind (
      arith, known.at, eq_iff, int_beq_iff, nat_beq_iff, sent_to_self, sent_to_other, append_none,
    ),
    grind (arith, known.at, eq_iff, int_beq_iff, nat_beq_iff, sent_to_self, sent_to_other),
    grind (arith, known.at),
  )
