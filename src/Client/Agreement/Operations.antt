-- ===== src/Client/Agreement/Operations.antt =====
-- A client of client/src/client.cpp while server/src/service/RoomService.cpp handles its room operations.
use cpp_chat_server.Prelude.{
  ℤ, ℕ, String, ◌≡◌, ◌≢◌, refl, ap, sym, ◌∙◌, true, false, Option, none, some, [], ◌∷◌, ◌++◌, map,
  arith, int_eq, string_eq, concat,
}
use cpp_chat_server.Protocol.{
  RoomOperation, join, leave, create, unrecognized, user_joined, user_left,
}
use cpp_chat_server.Domain.{Room, default_room}
use cpp_chat_server.Repository.{Repositories}
use cpp_chat_server.Map.{get}
use cpp_chat_server.Rooms.{current_room_name, step, joins, leaves, creates}
use cpp_chat_server.World.{World}
use cpp_chat_server.RoomService.{
  handle_room_operation, joined, left, notice, room_response, recipients, members_of,
}
use cpp_chat_server.Client.State.{Client, Texts}
use cpp_chat_server.Client.Agreement.{
  hears, shown, followed, shown-answer, current_room-hears, current-join_room, current-create_room,
  current-leave_room, Agrees, Agrees-of,
}

module _ {Store : Type 0} (repos : Repositories Store) (w : World Store) (user : ℤ)
    (name : String) where
  -- The requests and answers of the database after which a client is right about its room.
  abbrev pub IsFollowed : RoomOperation → Type 0
  IsFollowed join =
      (found : Option Room) × (st : Store) × (repos.rooms.find_by_room_name name w.store
        ≡ (some found, st))
  IsFollowed leave = name ≡ current_room_name w.rooms user
  IsFollowed create =
      (row : Room) × (st : Store) × (st' : Store) × (repos.rooms.find_by_room_name name w.store
        ≡ (some none, st))
      × (repos.rooms.add_room (record default_room { name = name; creator_id = user }) st
          ≡ (some (true, row), st'))
  IsFollowed (unrecognized m) = Unit {0}

module _ {Store : Type 0} (repos : Repositories Store) (texts : Texts) (c : Client)
    (w : World Store) (s : ℕ) (user : ℤ) (username : String)
    (a : (w.session s).authenticated ≡ true) (i : (w.session s).user_id ≡ some user)
    (n : (w.session s).username ≡ some username) (name : String) where
  after : RoomOperation → World Store
  after op = (handle_room_operation repos s op name w).1

  -- The shown room before an operation.
  shown-before :
      Agrees texts c s user w → shown s w.sent c.current_room ≡ current_room_name w.rooms user
  shown-before h = sym (current_room-hears texts s w.sent c) ∙ h

  join-Agrees :
      (found : Option Room) (st : Store)
      → repos.rooms.find_by_room_name name w.store ≡ (some found, st)
      → Agrees texts c s user w
      → Agrees texts c s user (after join)
  unfolding handle_room_operation after followed
  join-Agrees none st found h =
      Agrees-of texts c s user (after join)
        (w.sent
          ++ (s, room_response false join "" (concat ("Room '" ∷ name ∷ "' does not exist." ∷ [])))
            ∷ [])
        w.rooms (current_room_name w.rooms user) (ground arith) (ground arith)
        (shown-answer s w.sent join false "" _ _ ∙ shown-before h) refl
  join-Agrees (some row) st found h =
      Agrees-of texts c s user (after join)
        ((w.sent
            ++ map (λ t. (t, notice user_joined user username joined))
                (recipients (members_of (get (step w.rooms (joins user s name row)).active name))
                  user))
          ++ (
            s,
            room_response true join name (concat ("Joined room " ∷ name ∷ " successfully." ∷ [])),
          )
            ∷ [])
        (step w.rooms (joins user s name row)) name (unfold step in ground arith)
        (unfold step in ground arith) (shown-answer s _ join true name _ _)
        (current-join_room w.rooms user s name row)

  leave-Agrees : name ≡ current_room_name w.rooms user → Agrees texts c s user (after leave)
  unfolding handle_room_operation after followed
  leave-Agrees e =
      Agrees-of texts c s user (after leave)
        ((w.sent
            ++ map (λ t. (t, notice user_left user username left))
                (recipients (members_of (get (step w.rooms (leaves user name)).active name)) user))
          ++ (
            s,
            room_response true leave name (concat ("Left room " ∷ name ∷ " successfully." ∷ [])),
          )
            ∷ [])
        (step w.rooms (leaves user name)) "" (unfold step in ground arith)
        (unfold step in ground arith) (shown-answer s _ leave true name _ _)
        (rw e (current-leave_room w.rooms user))

  create-Agrees :
      (row : Room) (st st' : Store)
      → repos.rooms.find_by_room_name name w.store ≡ (some none, st)
      → repos.rooms.add_room (record default_room { name = name; creator_id = user }) st
        ≡ (some (true, row), st')
      → Agrees texts c s user (after create)
  unfolding handle_room_operation after followed
  create-Agrees row st st' free added =
      Agrees-of texts c s user (after create)
        (w.sent
          ++ (
            s,
            room_response true create name
                (concat ("Created room " ∷ name ∷ " successfully." ∷ [])),
          )
            ∷ [])
        (step w.rooms (creates user s name row)) name (unfold step in ground arith)
        (unfold step in ground arith) (shown-answer s _ create true name _ _)
        (current-create_room w.rooms user s name row)

  unrecognized-Agrees :
      (m : ℤ) → Agrees texts c s user w → Agrees texts c s user (after (unrecognized m))
  unfolding handle_room_operation after followed
  unrecognized-Agrees m h =
      Agrees-of texts c s user (after (unrecognized m))
        (w.sent ++ (s, room_response false (unrecognized m) name "Unknown operation.") ∷ []) w.rooms
        (current_room_name w.rooms user) (ground arith) (ground arith)
        (shown-answer s w.sent (unrecognized m) false name _ _ ∙ shown-before h) refl

  -- The operations of the session itself.
  pub operation-Agrees :
      (op : RoomOperation)
      → IsFollowed repos w user name op
      → Agrees texts c s user w
      → Agrees texts c s user (handle_room_operation repos s op name w).1
  unfolding after
  operation-Agrees join (found, st, f) h = join-Agrees found st f h
  operation-Agrees leave e h = leave-Agrees e
  operation-Agrees create (row, st, st', free, added) h = create-Agrees row st st' free added
  operation-Agrees (unrecognized m) u h = unrecognized-Agrees m h

  module _ (row : Room) (st : Store)
      (found : repos.rooms.find_by_room_name name w.store ≡ (some (some row), st)) where
    sent-taken :
        (after create).sent
        ≡ w.sent
          ++ (
            s,
            room_response false create name
                (concat ("Room name '" ∷ name ∷ "' is already taken." ∷ [])),
          )
            ∷ []
    unfolding handle_room_operation after
    sent-taken = ground arith

    current_room-taken : (hears texts s (after create).sent c).current_room ≡ name
    unfolding followed
    current_room-taken =
        current_room-hears texts s (after create).sent c
        ∙ ap (λ l. shown s l c.current_room) sent-taken
        ∙ shown-answer s w.sent create false name _ _

    rooms-taken : (after create).rooms ≡ w.rooms
    unfolding handle_room_operation after
    rooms-taken = ground arith

    -- After a CREATE of a name that is taken, other than that of the room that the server has the
    -- user in, the client that has handled the answer shows another room than the server has the
    -- user in.
    pub create_taken-not-Agrees :
        name ≢ current_room_name w.rooms user
        → ¬ Agrees texts c s user (handle_room_operation repos s create name w).1
    unfolding after
    create_taken-not-Agrees ne h =
        ne (sym current_room-taken ∙ h ∙ ap (λ r. current_room_name r user) rooms-taken)
