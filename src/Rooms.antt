-- ===== src/Rooms.antt =====
-- The state of server/src/service/RoomService.h and the parts of its handlers that run under the
-- server's mutex, each as one function.
pub mod Membership
pub mod Views
pub mod Invariant
pub mod Refinement
use cpp_chat_server.Prelude.{
  ℤ, pos, ℕ, String, Option, none, some, List, [], ◌∷◌, ◌==◌, if◌then◌else◌, int_eq, string_eq,
}
use cpp_chat_server.Map.{Map, empty, get, put, erase, is_empty}
use cpp_chat_server.Domain.{Room}

pub record ActiveRoom : Type 0 where
  pub id : ℤ
  pub creator_id : ℤ
  pub name : String
  -- user id to the session's address
  pub members : Map ℤ ℕ

pub record Rooms : Type 0 where
  -- activeRooms
  pub active : Map String ActiveRoom
  -- userToRoomMap
  pub room_of : Map ℤ String

abbrev pub no_rooms : Rooms
no_rooms = record { active = empty; room_of = empty }

pub set_members : Map String ActiveRoom → String → ActiveRoom → Map ℤ ℕ → Map String ActiveRoom
set_members active name room members = put active name (record room { members = members })

-- Erase a member, and the room with its last member.
pub drop_member : Map String ActiveRoom → String → ℤ → Map String ActiveRoom
unfolding set_members
drop_member active name user = elim (get active name) [
  | none ↦ active
  | some room ↦
      if is_empty (erase room.members user)
      then erase active name
      else set_members active name room (erase room.members user)
]

-- What JOIN does first for a user who is in some room.
pub leave_current : Rooms → ℤ → Rooms
unfolding drop_member
leave_current rooms user = elim (get rooms.room_of user) [
  | none ↦ rooms
  | some old ↦ record {
    active = drop_member rooms.active old user;
    room_of = erase rooms.room_of user;
  }
]

-- Add a member to a room, which becomes active if it is not.
pub enter : Rooms → ℤ → ℕ → String → Room → Rooms
unfolding set_members
enter rooms user session name row = record {
  active = elim (get rooms.active name) [
    | some room ↦ set_members rooms.active name room (put room.members user session)
    | none ↦ put rooms.active name (record {
      id = row.id;
      creator_id = row.creator_id;
      name = row.name;
      members = put empty user session;
    })
  ];
  room_of = put rooms.room_of user name;
}

-- The locked part of JOIN.
pub join_room : Rooms → ℤ → ℕ → String → Room → Rooms
join_room rooms user session name row = enter (leave_current rooms user) user session name row

-- The locked part of LEAVE.
pub leave_room : Rooms → ℤ → String → Rooms
unfolding drop_member
leave_room rooms user name = elim (get rooms.room_of user) [
  | none ↦ rooms
  | some current ↦
      if current == name
      then record {
        active = drop_member rooms.active name user;
        room_of = erase rooms.room_of user;
      }
      else rooms
]

-- activeRooms[name].members, where `[]` makes an empty room if there is none
members_or_new : Option ActiveRoom → Map ℤ ℕ
members_or_new none = empty
members_or_new (some room) = room.members

-- The locked part of CREATE.
pub create_room : Rooms → ℤ → ℕ → String → Room → Rooms
unfolding members_or_new
create_room rooms user session name row = record {
  active = put rooms.active name (record {
    id = row.id;
    creator_id = user;
    name = row.name;
    members = put (members_or_new (get rooms.active name)) user session;
  });
  room_of = put rooms.room_of user name;
}

-- What handleDisconnect does to the maps.
pub disconnect_user : Rooms → ℤ → Rooms
unfolding drop_member
disconnect_user rooms user = elim (get rooms.room_of user) [
  | none ↦ rooms
  | some name ↦ record {
    active = drop_member rooms.active name user;
    room_of = erase rooms.room_of user;
  }
]

-- getUserCurrentRoomName
unfoldable pub current_room_name : Rooms → ℤ → String
current_room_name rooms user = elim (get rooms.room_of user) [ none ↦ "" | some name ↦ name ]

-- getUserCurrentRoomId
unfoldable pub current_room_id : Rooms → ℤ → ℤ
current_room_id rooms user = elim (get rooms.room_of user) [
  | none ↦ pos 0
  | some name ↦ elim (get rooms.active name) [ none ↦ pos 0 | some room ↦ room.id ]
]

-- The sections of code that hold the mutex and write the maps, with what each one read before it
-- took the lock. Threads interleave at these sections, so a list of them is a schedule.
pub data Section : Type 0 where
  joins : (user : ℤ) (session : ℕ) (name : String) (row : Room) → Section
  leaves : (user : ℤ) (name : String) → Section
  creates : (user : ℤ) (session : ℕ) (name : String) (row : Room) → Section
  disconnects : (user : ℤ) → Section

unfoldable pub step : Rooms → Section → Rooms
step rooms (joins user session name row) = join_room rooms user session name row
step rooms (leaves user name) = leave_room rooms user name
step rooms (creates user session name row) = create_room rooms user session name row
step rooms (disconnects user) = disconnect_user rooms user

unfoldable pub run : Rooms → List Section → Rooms
run rooms [] = rooms
run rooms (c ∷ cs) = run (step rooms c) cs
