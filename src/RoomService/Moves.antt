-- ===== src/RoomService/Moves.antt =====
-- handleRoomOperation of server/src/service/RoomService.cpp: what it does to the placement of the users,
-- and what it answers.
use cpp_chat_server.Prelude.{
  ℤ, ℕ, String, ◌≡◌, true, false, none, some, [], ◌∷◌, ◌++◌, map, arith, int_eq, string_eq, concat,
}
use cpp_chat_server.Map.{get}
use cpp_chat_server.Exec.{ok}
use cpp_chat_server.Domain.{Room, default_room}
use cpp_chat_server.Protocol.{join, leave, create, user_joined}
use cpp_chat_server.Repository.{Repositories}
use cpp_chat_server.Rooms.{step, joins, leaves, creates}
use cpp_chat_server.Rooms.Invariant.{IsPlaced}
use cpp_chat_server.Rooms.Refinement.{place, place-step, moved, spec_step}
use cpp_chat_server.World.{World}
use cpp_chat_server.RoomService.{
  handle_room_operation, room_response, notice, joined, recipients, members_of,
}

module _ {Store : Type 0} (repos : Repositories Store) (w : World Store) (s : ℕ) (user : ℤ)
    (username : String) (a : (w.session s).authenticated ≡ true)
    (i : (w.session s).user_id ≡ some user) (n : (w.session s).username ≡ some username) where
  -- For an authenticated user, if the room is in the database and whoever is mapped to a room is a
  -- member of it: JOIN places the user in the room with this session and everyone else where they
  -- were; the other members of the room are sent a notice, and then the session its answer.
  pub join-moves :
      (name : String) (row : Room) (st : Store)
      → repos.rooms.find_by_room_name name w.store ≡ (some (some row), st)
      → IsPlaced w.rooms
      → let w' = (handle_room_operation repos s join name w).1 in
        ((v : ℤ) → place w'.rooms v ≡ moved (place w.rooms) user (some (name, s)) v)
        × (w'.sent
            ≡ (w.sent
                ++ map
                    (λ t. (t, notice user_joined user username joined))
                    (recipients (members_of (get w'.rooms.active name)) user))
              ++ (
                s,
                room_response true join name
                    (concat ("Joined room " ∷ name ∷ " successfully." ∷ [])),
              )
                ∷ [])
  unfolding handle_room_operation step
  join-moves name row st found p =
      (λ v. ground (arith, place-step w.rooms (joins user s name row) v p), ground arith)

  -- A room that the database does not have cannot be joined: only the answer is new, and the user
  -- stays where they were.
  pub join-missing :
      (name : String) (st : Store)
      → repos.rooms.find_by_room_name name w.store ≡ (some none, st)
      → handle_room_operation repos s join name w ≡ (
        ok tt,
        record w {
          store = st;
          sent =
              w.sent
              ++ (
                s,
                room_response false join "" (concat ("Room '" ∷ name ∷ "' does not exist." ∷ [])),
              )
                ∷ [];
        },
      )
  unfolding handle_room_operation step
  join-missing name st found = ground arith

  -- For an authenticated user, if whoever is mapped to a room is a member of it: LEAVE takes the
  -- user out of their room if it is the one named, and leaves everyone else, and a user who is
  -- elsewhere, where they are.
  pub leave-moves :
      (name : String)
      → IsPlaced w.rooms
      → (v : ℤ)
      → place (handle_room_operation repos s leave name w).1.rooms v
        ≡ spec_step (place w.rooms) (leaves user name) v
  unfolding handle_room_operation step
  leave-moves name p v = ground (arith, place-step w.rooms (leaves user name) v p)

  -- For an authenticated user, if the name is free, the repository adds the room, and whoever is
  -- mapped to a room is a member of it: CREATE places the user in the new room with this session,
  -- and everyone else where they were.
  pub create-moves :
      (name : String) (row : Room) (st st' : Store)
      → repos.rooms.find_by_room_name name w.store ≡ (some none, st)
      → repos.rooms.add_room (record default_room { name = name; creator_id = user }) st
        ≡ (some (true, row), st')
      → IsPlaced w.rooms
      → (v : ℤ)
      → place (handle_room_operation repos s create name w).1.rooms v
        ≡ moved (place w.rooms) user (some (name, s)) v
  unfolding handle_room_operation step
  create-moves name row st st' free added p v =
      ground (arith, place-step w.rooms (creates user s name row) v p)
