-- ===== src/Client/Agreement/Others.antt =====
-- A client of client/src/client.cpp while server/src/service/RoomService.cpp handles the room operations of
-- other sessions.
use cpp_chat_server.Prelude.{
  ℤ, ℕ, String, ◌≡◌, ◌≢◌, ap, sym, ◌∙◌, some, List, [], ◌∷◌, ◌++◌, map, true, none, Bool-cases,
  Option-cases, inl, inr, concat, arith, int_eq, nat_eq, string_eq, int_beq_iff, nat_beq_iff, ◌==◌,
  if◌then◌else◌,
}
use cpp_chat_server.Protocol.{
  RoomOperation, join, leave, create, unrecognized, Envelope, UserEventType, user_joined, user_left,
}
use cpp_chat_server.Domain.{Room}
use cpp_chat_server.Repository.{Repositories}
use cpp_chat_server.Rooms.{Rooms, current_room_name, join_room, leave_room, create_room}
use cpp_chat_server.Rooms.Membership.{room_of-join_room, room_of-leave_room, room_of-create_room}
use cpp_chat_server.Map.{get}
use cpp_chat_server.World.{World}
use cpp_chat_server.RoomService.{
  handle_room_operation, notice, joined, left, recipients, members_of, room_response,
}
use cpp_chat_server.Client.State.{Client, Texts}
use cpp_chat_server.Client.Agreement.{shown, shown-append, shown-told, current_room-hears, Agrees}

-- The room of a user while another one moves.
module _ (rooms : Rooms) (user guest : ℤ) (other : guest ≢ user) where
  current-join_other :
      (t : ℕ) (name : String) (row : Room)
      → current_room_name (join_room rooms guest t name row) user ≡ current_room_name rooms user
  unfolding current_room_name
  current-join_other t name row =
      ground (arith, room_of-join_room rooms guest user t name row, int_beq_iff guest user)

  current-create_other :
      (t : ℕ) (name : String) (row : Room)
      → current_room_name (create_room rooms guest t name row) user ≡ current_room_name rooms user
  unfolding current_room_name
  current-create_other t name row =
      ground (arith, room_of-create_room rooms guest user t name row, int_beq_iff guest user)

  current-leave_other :
      (name : String)
      → current_room_name (leave_room rooms guest name) user ≡ current_room_name rooms user
  unfolding current_room_name
  current-leave_other name =
      ground (arith, room_of-leave_room rooms guest user name, int_beq_iff guest user)

if_other : (s t : ℕ) (a b : String) → t ≢ s → (if t == s then a else b) ≡ b
if_other s t a b d = ground (arith, nat_beq_iff t s)

-- The room that is shown after an envelope for another session.
shown-other :
    (s t : ℕ) (sent : List (ℕ × Envelope)) (e : Envelope) (room : String)
    → t ≢ s
    → shown s (sent ++ (t, e) ∷ []) room ≡ shown s sent room
unfolding shown
shown-other s t sent e room d = shown-append s sent _ room ∙ if_other s t _ _ d

-- The room that is shown after a notice and the answer of another session.
shown-told_other :
    (s t : ℕ) (sent : List (ℕ × Envelope)) (l : List ℕ) (event : UserEventType) (guest : ℤ)
    (username what : String) (e : Envelope) (room : String)
    → t ≢ s
    → shown s ((sent ++ map (λ r. (r, notice event guest username what)) l) ++ (t, e) ∷ []) room
      ≡ shown s sent room
shown-told_other s t sent l event guest username what e room d =
    shown-other s t _ e room d ∙ shown-told s sent l event guest username what room

module _ {Store : Type 0} (repos : Repositories Store) (w : World Store) (s t : ℕ) (user : ℤ)
    (d : t ≢ s) (n : (w.session t).user_id ≢ some user) (name room : String) where
  module _ (guest : ℤ) (username : String) (i : (w.session t).user_id ≡ some guest)
      (k : (w.session t).username ≡ some username) (a : (w.session t).authenticated ≡ true) where
    sent-join :
        (row : Room)
        → (repos.rooms.find_by_room_name name w.store).0 ≡ some (some row)
        → (handle_room_operation repos t join name w).1.sent
          ≡ (w.sent
              ++ map
                  (λ r. (r, notice user_joined guest username joined))
                  (recipients
                    (members_of (get (join_room w.rooms guest t name row).active name))
                    guest))
            ++ (
              t,
              room_response true join name (concat ("Joined room " ∷ name ∷ " successfully." ∷ [])),
            )
              ∷ []
    unfolding handle_room_operation
    sent-join row f = ground arith

    sent-leave :
        (handle_room_operation repos t leave name w).1.sent
        ≡ (w.sent
            ++ map
                (λ r. (r, notice user_left guest username left))
                (recipients (members_of (get (leave_room w.rooms guest name).active name)) guest))
          ++ (
            t,
            room_response true leave name (concat ("Left room " ∷ name ∷ " successfully." ∷ [])),
          )
            ∷ []
    unfolding handle_room_operation
    sent-leave = ground arith

  shown-join : shown s (handle_room_operation repos t join name w).1.sent room ≡ shown s w.sent room
  unfolding handle_room_operation
  shown-join = elim (Bool-cases (w.session t).authenticated) [
    | inr e ↦ ground arith
    | inl a ↦ elim (Option-cases (w.session t).user_id) [
      | inl e ↦ ground arith
      | inr (guest, i) ↦ elim (Option-cases (repos.rooms.find_by_room_name name w.store).0) [
        | inl e ↦ ground arith
        | inr (none, e) ↦ grind (arith, shown-other s t w.sent)
        | inr (some row, e) ↦ elim (Option-cases (w.session t).username) [
          | inl m ↦ ground arith
          | inr (username, k) ↦
              ap (λ l. shown s l room) (sent-join guest username i k a row e)
              ∙ shown-told_other s t w.sent _ user_joined guest username joined _ room d
        ]
      ]
    ]
  ]

  shown-leave :
      shown s (handle_room_operation repos t leave name w).1.sent room ≡ shown s w.sent room
  unfolding handle_room_operation
  shown-leave = elim (Bool-cases (w.session t).authenticated) [
    | inr e ↦ ground arith
    | inl a ↦ elim (Option-cases (w.session t).user_id) [
      | inl e ↦ ground arith
      | inr (guest, i) ↦ elim (Option-cases (w.session t).username) [
        | inl m ↦ ground arith
        | inr (username, k) ↦
            ap (λ l. shown s l room) (sent-leave guest username i k a)
            ∙ shown-told_other s t w.sent _ user_left guest username left _ room d
      ]
    ]
  ]

  shown-create :
      shown s (handle_room_operation repos t create name w).1.sent room ≡ shown s w.sent room
  unfolding handle_room_operation
  shown-create = grind (arith, shown-other s t w.sent)

  shown-unrecognized :
      (m : ℤ)
      → shown s (handle_room_operation repos t (unrecognized m) name w).1.sent room
        ≡ shown s w.sent room
  unfolding handle_room_operation
  shown-unrecognized m = grind (arith, shown-other s t w.sent)

  shown-operation :
      (op : RoomOperation)
      → shown s (handle_room_operation repos t op name w).1.sent room ≡ shown s w.sent room
  shown-operation join = shown-join
  shown-operation leave = shown-leave
  shown-operation create = shown-create
  shown-operation (unrecognized m) = shown-unrecognized m

  current-operation :
      (op : RoomOperation)
      → current_room_name (handle_room_operation repos t op name w).1.rooms user
        ≡ current_room_name w.rooms user
  unfolding handle_room_operation
  current-operation join = grind (arith, current-join_other)
  current-operation leave = grind (arith, current-leave_other)
  current-operation create = grind (arith, current-create_other)
  current-operation (unrecognized m) = grind arith

-- If the client of a user, having handled everything that was sent to its session, shows the room that
-- the server has the user in, then so it does after any room operation of another session that is not
-- the user's.
pub others-Agrees :
    {Store : Type 0} (repos : Repositories Store) (texts : Texts) (c : Client) (w : World Store)
    (s t : ℕ) (user : ℤ) (op : RoomOperation) (name : String)
    → t ≢ s
    → (w.session t).user_id ≢ some user
    → Agrees texts c s user w
    → Agrees texts c s user (handle_room_operation repos t op name w).1
others-Agrees repos texts c w s t user op name d n h =
    current_room-hears texts s _ c
    ∙ shown-operation repos w s t user d n name c.current_room op
    ∙ sym (current_room-hears texts s w.sent c)
    ∙ h
    ∙ sym (current-operation repos w s t user d n name c.current_room op)
