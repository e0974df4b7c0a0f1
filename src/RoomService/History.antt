-- ===== src/RoomService/History.antt =====
-- handleHistoryRequest of server/src/service/RoomService.cpp.
use mathlib.Core.List.{reverse}
use cpp_chat_server.Prelude.{
  ℤ, pos, ℕ, String, ◌≡◌, ◌≢◌, refl, true, Option, none, some, List, [], ◌∷◌, ◌++◌, map, arith,
  if◌then◌else◌, int_eq, string_eq, eq_iff, is_positive, to_string, Option-cases, inl, inr,
}
use cpp_chat_server.Map.{get}
use cpp_chat_server.Exec.{ok}
use cpp_chat_server.Domain.{User, Message}
use cpp_chat_server.Protocol.{MessageBroadcast, envelope, history_message_response}
use cpp_chat_server.Repository.{Repositories, IUserRepository}
use cpp_chat_server.Rooms.{current_room_id}
use cpp_chat_server.TimeConvert.{convert_time_point_to_timestamp}
use cpp_chat_server.World.{World}
use cpp_chat_server.RoomService.{handle_history_request, history_entries, sender_name}

-- What the loop relies on: in the databases that `Holds` describes, look-ups by id do not throw, answer
-- what is in `table`, and lead to such a database again.
pub record ReadsUsers {Store : Type 0} (users : IUserRepository Store) (Holds : Store → Type 0)
    (table : ℤ → Option User) : Type 0 where
  pub reads :
      (id : ℤ) (st : Store)
      → Holds st
      → (st' : Store) × (users.find_by_user_id id st ≡ (some (table id), st')) × Holds st'

-- The name under which a sender is shown.
abbrev pub shown_name : Option User → String
shown_name none = "Unknown"
shown_name (some user) = user.username

-- A stored message as the client is shown it.
abbrev pub shown : (ℤ → Option User) → String → Message → MessageBroadcast
shown table room m = record {
  from_user_id = to_string m.sender_id;
  from_username = shown_name (table m.sender_id);
  content = m.content;
  timestamp = convert_time_point_to_timestamp m.created_at;
  room_name = some room;
}

module _ {Store : Type 0} (repos : Repositories Store) (Holds : Store → Type 0)
    (table : ℤ → Option User) (users : ReadsUsers repos.users Holds table) where
  sender_name_lem :
      (sender : ℤ) (w : World Store)
      → Holds w.store
      → (st : Store) × (sender_name repos sender w
          ≡ (ok (shown_name (table sender)), record w { store = st }))
        × Holds st
  unfolding sender_name
  sender_name_lem sender w h =
      let (st, first, h₁) = users.reads sender w.store h in
      let (st', again, h₂) = users.reads sender st h₁ in
      elim (Option-cases (table sender)) [
        | inl e ↦ (st, ground (arith, first), h₁)
        | inr (user, e) ↦ (st', ground (arith, first, again), h₂)
      ]

  entries_lem :
      (room : String) (l : List Message) (w : World Store)
      → Holds w.store
      → (st : Store) × (history_entries repos room l w
          ≡ (ok (map (shown table room) l), record w { store = st }))
        × Holds st
  unfolding history_entries
  entries_lem room [] w h = (w.store, refl, h)
  entries_lem room (m ∷ l) w h =
      let (st, name, h₁) = sender_name_lem m.sender_id w h in
      let (st', rest, h₂) = entries_lem room l (record w { store = st }) h₁ in
      (st', rw (name, rest) refl, h₂)

  -- An authenticated user who is mapped to the room, where the repositories do not throw and look-
  -- ups of users keep what the table holds, is sent the latest messages that the repository
  -- returns for the limit asked for, or for 50 if it is not positive: oldest first, each with its
  -- sender's name, or "Unknown". Nothing else changes but the repository's state.
  pub history_lem :
      (w : World Store) (s : ℕ) (user : ℤ) (room : String) (limit : ℤ) (latest : List Message)
      (st : Store)
      → (w.session s).authenticated ≡ true
      → (w.session s).user_id ≡ some user
      → get w.rooms.room_of user ≡ some room
      → repos.messages.find_latest_by_room_id
          (current_room_id w.rooms user)
          (if is_positive limit then limit else pos 50)
          w.store
        ≡ (some latest, st)
      → Holds st
      → (st' : Store) × (handle_history_request repos s room limit w ≡ (
        ok tt,
        record w {
          store = st';
          sent =
              w.sent
              ++ (
                s,
                envelope (history_message_response room (map (shown table room) (reverse latest))),
              )
                ∷ [];
        },
      ))
        × Holds st'
  unfolding handle_history_request
  history_lem w s user room limit latest st a i r found h =
      let (st', entries, h') = entries_lem room (reverse latest) (record w { store = st }) h in
      (st', ground (arith, eq_iff room room, entries), h')

-- An authenticated user who is not mapped to the room that they ask for is sent nothing, and
-- nothing changes.
pub history_refused :
    {Store : Type 0} (repos : Repositories Store) (w : World Store) (s : ℕ) (user : ℤ)
    (room : String) (limit : ℤ)
    → (w.session s).authenticated ≡ true
    → (w.session s).user_id ≡ some user
    → get w.rooms.room_of user ≢ some room
    → handle_history_request repos s room limit w ≡ (ok tt, w)
unfolding handle_history_request
history_refused repos w s user room limit a i r = elim (Option-cases (get w.rooms.room_of user)) [
  | inl e ↦ ground arith
  | inr (current, e) ↦ ground (arith, eq_iff current room)
]
