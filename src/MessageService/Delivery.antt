-- ===== src/MessageService/Delivery.antt =====
-- To whom the handlers of server/src/service/MessageService.cpp send.
use cpp_chat_server.Prelude.{
  ℤ, pos, ℕ, String, ◌≡◌, ◌≢◌, Bool, true, none, some, Option-cases, inl, inr, to_string, List, [],
  ◌∷◌, ◌++◌, map, arith, ◌==◌, if◌then◌else◌, string_eq, eq_iff, nat_eq, nat_beq_iff, int_eq,
}
use cpp_chat_server.Map.{get}
use cpp_chat_server.Exec.{ok}
use cpp_chat_server.Protocol.{Envelope, envelope, message_broadcast}
use cpp_chat_server.Domain.{Message, default_message}
use cpp_chat_server.Rooms.Membership.{member, current_room_name_of}
use cpp_chat_server.Rooms.Invariant.{IsPlaced}
use cpp_chat_server.RoomService.Recipients.{Has, recipients-iff-member}
use cpp_chat_server.Rooms.{Rooms, current_room_id}
use cpp_chat_server.RoomService.{recipients, members_of}
use cpp_chat_server.Repository.{Repositories}
use cpp_chat_server.World.{World, Env}
use cpp_chat_server.MessageService.{
  handle_private_message, handle_public_message, chat_message, not_in_room,
}

-- What was sent to one session, in order.
pub sent_to : ℕ → List (ℕ × Envelope) → List Envelope
sent_to t [] = []
sent_to t ((s, e) ∷ l) = let rest = sent_to t l in if s == t then e ∷ rest else rest

pub sent_to_other :
    (u s : ℕ) (l : List (ℕ × Envelope)) (e : Envelope)
    → u ≢ s
    → sent_to u (l ++ (s, e) ∷ []) ≡ sent_to u l
unfolding sent_to
sent_to_other u s [] e ne = ground (arith, nat_beq_iff s u)
sent_to_other u s ((t, d) ∷ l) e ne = ground (arith, sent_to_other u s l e)

pub sent_to_self :
    (s : ℕ) (l : List (ℕ × Envelope)) (e : Envelope)
    → sent_to s (l ++ (s, e) ∷ []) ≡ sent_to s l ++ e ∷ []
unfolding sent_to
sent_to_self s [] e = ground (arith, nat_beq_iff s s)
sent_to_self s ((t, d) ∷ l) e = ground (arith, sent_to_self s l e)

-- Whoever is a member, other than the user 0, is sent what is broadcast to the room.
self_found :
    (rooms : Rooms) (room : String) (user : ℤ)
    → user ≢ pos 0
    → member rooms.active room user ≢ none
    → (t : ℕ) × (member rooms.active room user ≡ some t)
      × Has t (recipients (members_of (get rooms.active room)) (pos 0))
self_found rooms room user ne h = elim (Option-cases (member rooms.active room user)) [
  | inl e ↦ absurd (h e)
  | inr (t, e) ↦ (t, e, (recipients-iff-member rooms room (pos 0) t).1 (user, e, ne))
]

module _ {Store : Type 0} (env : Env) (w : World Store) (s : ℕ) where
  -- Of a private message, whatever branch it takes, a session that is not the sender's and that
  -- the index does not hold under the target's name is sent nothing.
  pub private_message-private :
      (to content : String) (u : ℕ)
      → u ≢ s
      → get w.manager.sessions_by_username to ≢ some u
      → sent_to u (handle_private_message env s to content w).1.sent ≡ sent_to u w.sent
  unfolding handle_private_message
  private_message-private to content u ne absent = grind (arith, sent_to_other)

  module _ (repos : Repositories Store) where
    -- A public message by an authenticated user other than user 0 who is mapped to a room with a
    -- name, where whoever is mapped to a room is a member of it and the repository does not throw,
    -- is sent to the sessions that stand for the members of that room other than user 0, the
    -- session of the sender among them, and to nobody else, with the sender's id and name, the
    -- text, the time and the room on it, whether or not the repository kept it. Nothing else
    -- changes but the repository's state.
    pub public_message-delivers :
        (content room username : String) (sender : ℤ) (kept : Bool) (m : Message) (st : Store)
        → (w.session s).authenticated ≡ true
        → (w.session s).user_id ≡ some sender
        → (w.session s).username ≡ some username
        → get w.rooms.room_of sender ≡ some room
        → room ≢ ""
        → sender ≢ pos 0
        → IsPlaced w.rooms
        → repos.messages.add_message
            (record default_message {
              sender_id = sender;
              room_id = current_room_id w.rooms sender;
              content = content;
            })
            w.store
          ≡ (some (kept, m), st)
        → let to = recipients (members_of (get w.rooms.active room)) (pos 0) in
          let message : Envelope = envelope (
            message_broadcast (record {
              from_user_id = to_string sender;
              from_username = username;
              content = content;
              timestamp = env.now;
              room_name = some room;
            })) in
          (handle_public_message env repos s content w
            ≡ (ok tt, record w { store = st; sent = w.sent ++ map (λ t. (t, message)) to }))
          × ((t : ℕ) × (member w.rooms.active room sender ≡ some t) × Has t to)
    unfolding handle_public_message chat_message
    public_message-delivers content room username sender kept m st a i n r ne some_user p added = (
      ground (arith, eq_iff room "", current_room_name_of w.rooms sender room r),
      self_found w.rooms room sender some_user (p.at sender room r),
    )

    -- A public message by an authenticated user who is mapped to the room whose name is empty is
    -- answered as if they were in no room, and sent to nobody else.
    pub public_message_in_unnamed_room :
        (content room username : String) (sender : ℤ)
        → (w.session s).authenticated ≡ true
        → (w.session s).user_id ≡ some sender
        → (w.session s).username ≡ some username
        → get w.rooms.room_of sender ≡ some room
        → room ≡ ""
        → handle_public_message env repos s content w
          ≡ (ok tt, record w { sent = w.sent ++ (s, not_in_room) ∷ [] })
    unfolding handle_public_message
    public_message_in_unnamed_room content room username sender a i n r e =
        ground (arith, eq_iff room "", current_room_name_of w.rooms sender room r)
