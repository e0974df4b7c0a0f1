-- ===== src/Rooms/Invariant.antt =====
-- What holds of the room maps of RoomService whenever no thread is inside a locked section.
use cpp_chat_server.Prelude.{
  ℤ, ℕ, String, ◌≡◌, ◌≢◌, false, none, some, List, [], ◌∷◌, arith, int_eq, string_eq, eq_iff,
  int_beq_iff, Option-cases, inl, inr,
}
use cpp_chat_server.Map.{Map, get, erase, is_empty, get-empty, get-put, get-erase, is_empty-put}
use cpp_chat_server.Domain.{Room}
use cpp_chat_server.Rooms.{
  ActiveRoom, Rooms, no_rooms, set_members, drop_member, leave_current, enter, join_room,
  leave_room, create_room, disconnect_user, Section, joins, leaves, creates, disconnects, step, run,
}
use cpp_chat_server.Rooms.Membership.{
  member, is_mapped_to, member-disconnect_user, member-leave_room, member-create_room,
  member-join_room, room_of-disconnect_user, room_of-leave_room, room_of-create_room,
  room_of-join_room,
}

-- Whoever is mapped to a room is a member of it, and it is active.
pub record IsPlaced (rooms : Rooms) : Type 0 where
  pub at : (u : ℤ) (r : String) → get rooms.room_of u ≡ some r → member rooms.active r u ≢ none

-- Whoever is a member of an active room is mapped to it: so nobody is in two rooms.
pub record IsExclusive (rooms : Rooms) : Type 0 where
  pub at : (u : ℤ) (r : String) → member rooms.active r u ≢ none → get rooms.room_of u ≡ some r

-- No active room is empty.
pub record IsInhabited (rooms : Rooms) : Type 0 where
  pub at :
      (r : String) (room : ActiveRoom)
      → get rooms.active r ≡ some room
      → is_empty room.members ≡ false

ruleset room_laws = (
  arith, eq_iff, int_beq_iff, member-join_room, room_of-join_room, member-leave_room,
  room_of-leave_room, member-create_room, room_of-create_room, member-disconnect_user,
  room_of-disconnect_user,
)

-- Every locked section keeps the users placed, whatever else the maps hold.
pub step-IsPlaced : (rooms : Rooms) (c : Section) → IsPlaced rooms → IsPlaced (step rooms c)
unfolding step is_mapped_to
step-IsPlaced rooms (disconnects user) p = record { at = λ u r h. grind (room_laws, p.at u r) }
step-IsPlaced rooms _ p = record { at = λ u r h. grind (room_laws, p.at u r) }

-- The sections that keep users out of two rooms: all but a CREATE by a member of another room.
abbrev pub IsOrderly : Rooms → Section → Type 0
IsOrderly rooms (creates user session name row) =
    (r : String) → member rooms.active r user ≢ none → r ≡ name
IsOrderly rooms _ = Unit {0}

-- If whoever is a member of an active room is mapped to it, so that nobody is in two rooms, then
-- this still holds after each locked section of JOIN, LEAVE and a lost connection, and after that
-- of CREATE for a user who is in no other room.
pub step-IsExclusive :
    (rooms : Rooms) (c : Section)
    → IsOrderly rooms c
    → IsExclusive rooms
    → IsExclusive (step rooms c)
unfolding step is_mapped_to
step-IsExclusive rooms (creates user session name row) o p = record {
  at = λ u r h. grind (room_laws, p.at u r, o r);
}
step-IsExclusive rooms (joins user session name row) o p = record {
  at = λ u r h. grind (room_laws, eq_iff r r, p.at u r);
}
step-IsExclusive rooms _ o p = record { at = λ u r h. grind (room_laws, eq_iff r r, p.at u r) }

-- The room of one drop.
drop_member-IsInhabited :
    (active : Map String ActiveRoom) (name r : String) (user : ℤ) (room : ActiveRoom)
    → ((q : ActiveRoom) → get active r ≡ some q → is_empty q.members ≡ false)
    → get (drop_member active name user) r ≡ some room
    → is_empty room.members ≡ false
unfolding drop_member set_members
drop_member-IsInhabited active name r user room p h = elim (Option-cases (get active name)) [
  | inl e ↦ p room (ground arith)
  | inr (old, e) ↦ ground (
    arith,
    p room,
    get-erase active name r,
    get-put active name r (record old { members = erase old.members user }),
  )
]

enter-IsInhabited :
    (rooms : Rooms) (user : ℤ) (session : ℕ) (name : String) (row : Room)
    → IsInhabited rooms
    → IsInhabited (enter rooms user session name row)
unfolding enter set_members
enter-IsInhabited rooms user session name row p = record {
  at = λ r room h. elim (Option-cases (get rooms.active name)) [
    | inl e ↦ grind (arith, p.at r room, get-put, is_empty-put)
    | inr (old, e) ↦ grind (arith, p.at r room, get-put, is_empty-put)
  ];
}

leave_current-IsInhabited :
    (rooms : Rooms) (user : ℤ) → IsInhabited rooms → IsInhabited (leave_current rooms user)
unfolding leave_current
leave_current-IsInhabited rooms user p = record {
  at = λ r room h. elim (Option-cases (get rooms.room_of user)) [
    | inl e ↦ p.at r room (ground arith)
    | inr (old, e) ↦ drop_member-IsInhabited rooms.active old r user room (p.at r) (ground arith)
  ];
}

leave_room-IsInhabited :
    (rooms : Rooms) (user : ℤ) (name : String)
    → IsInhabited rooms
    → IsInhabited (leave_room rooms user name)
unfolding leave_room
leave_room-IsInhabited rooms user name p = record {
  at = λ r room h.
      ground (arith, p.at r room, drop_member-IsInhabited rooms.active name r user room (p.at r));
}

-- Every locked section keeps the active rooms inhabited.
pub step-IsInhabited :
    (rooms : Rooms) (c : Section) → IsInhabited rooms → IsInhabited (step rooms c)
unfolding step create_room disconnect_user join_room
step-IsInhabited rooms (joins user session name row) p =
    enter-IsInhabited _ user session name row (leave_current-IsInhabited rooms user p)
step-IsInhabited rooms (leaves user name) p = leave_room-IsInhabited rooms user name p
step-IsInhabited rooms (creates user session name row) p = record {
  at = λ r room h. grind (arith, p.at r room, get-put, is_empty-put);
}
step-IsInhabited rooms (disconnects user) p =
    unfold leave_current in leave_current-IsInhabited rooms user p

-- The maps in good order.
pub record IsValid (rooms : Rooms) : Type 0 where
  pub placed : IsPlaced rooms
  pub inhabited : IsInhabited rooms

pub IsValid-no_rooms : IsValid no_rooms
unfolding member
IsValid-no_rooms = record {
  placed = record { at = λ u r h. grind (arith, get-empty) };
  inhabited = record { at = λ r room h. grind (arith, get-empty) };
}

pub step-IsValid : (rooms : Rooms) (c : Section) → IsValid rooms → IsValid (step rooms c)
step-IsValid rooms c v = record {
  placed = step-IsPlaced rooms c v.placed;
  inhabited = step-IsInhabited rooms c v.inhabited;
}

-- Whatever the schedule of the threads.
pub run-IsValid : (rooms : Rooms) (cs : List Section) → IsValid rooms → IsValid (run rooms cs)
unfolding run
run-IsValid rooms [] v = v
run-IsValid rooms (c ∷ cs) v = run-IsValid (step rooms c) cs (step-IsValid rooms c v)
