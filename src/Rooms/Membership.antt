-- ===== src/Rooms/Membership.antt =====
-- Who is a member of which active room: the view of the room maps by which the operations of
-- RoomService are specified, and what each of them does to it.
use cpp_chat_server.Prelude.{
  ℤ, ℕ, String, ◌≡◌, Bool, false, Option, none, some, arith, ◌==◌, ◌&&◌, if◌then◌else◌, int_eq,
  string_eq, eq_iff, int_beq_iff, Option-cases, inl, inr,
}
use cpp_chat_server.Map.{
  Map, empty, get, put, erase, get-empty, get-put, get-erase, get_of_is_empty,
}
use cpp_chat_server.Domain.{Room}
use cpp_chat_server.Rooms.{
  ActiveRoom, Rooms, drop_member, leave_current, enter, join_room, leave_room, members_or_new,
  create_room, disconnect_user, current_room_name,
}

abbrev pub member_in : Option ActiveRoom → ℤ → Option ℕ
member_in none user = none
member_in (some room) user = get room.members user

-- The session that stands for `user` in the active room `name`.
unfoldable pub member : Map String ActiveRoom → String → ℤ → Option ℕ
member active name user = member_in (get active name) user

-- With the room at hand.
drop_found :
    (active : Map String ActiveRoom) (name r : String) (user v : ℤ) (room : ActiveRoom)
    → get active name ≡ some room
    → member (drop_member active name user) r v
      ≡ (if name == r && user == v then none else member active r v)
unfolding member drop_member
drop_found active name r user v room h = ground (
  arith,
  eq_iff name r,
  int_beq_iff user v,
  get-erase active name r,
  get-put active name r (record room { members = erase room.members user }),
  get-erase room.members user v,
  get_of_is_empty (erase room.members user) v,
)

-- `drop_member` takes one member out of one room and nobody else.
pub member-drop_member :
    (active : Map String ActiveRoom) (name r : String) (user v : ℤ)
    → member (drop_member active name user) r v
      ≡ (if name == r && user == v then none else member active r v)
member-drop_member active name r user v = elim (Option-cases (get active name)) [
  | inl e ↦ unfold member drop_member in ground (arith, eq_iff name r)
  | inr (room, e) ↦ drop_found active name r user v room e
]

-- Whether `user` is mapped to the room `name`.
unfoldable pub is_mapped_to : Rooms → ℤ → String → Bool
is_mapped_to rooms user name = elim (get rooms.room_of user) [
  | none ↦ false
  | some current ↦ current == name
]

module _ (rooms : Rooms) (user v : ℤ) (r : String) where
  pub member-leave_current :
      member (leave_current rooms user).active r v
      ≡ (if is_mapped_to rooms user r && user == v then none else member rooms.active r v)
  unfolding leave_current is_mapped_to
  member-leave_current = elim (Option-cases (get rooms.room_of user)) [
    | inl e ↦ ground arith
    | inr (old, e) ↦ ground (arith, member-drop_member rooms.active old r user v)
  ]

  pub member-disconnect_user :
      member (disconnect_user rooms user).active r v
      ≡ (if is_mapped_to rooms user r && user == v then none else member rooms.active r v)
  unfolding disconnect_user is_mapped_to
  member-disconnect_user = elim (Option-cases (get rooms.room_of user)) [
    | inl e ↦ ground arith
    | inr (old, e) ↦ ground (arith, member-drop_member rooms.active old r user v)
  ]

  pub member-leave_room :
      (name : String)
      → member (leave_room rooms user name).active r v ≡ (
          if is_mapped_to rooms user name && name == r && user == v
          then none
          else member rooms.active r v)
  unfolding leave_room is_mapped_to
  member-leave_room name = ground (arith, member-drop_member rooms.active name r user v)

  module _ (session : ℕ) (name : String) (row : Room) where
    pub member-enter :
        member (enter rooms user session name row).active r v
        ≡ (if name == r && user == v then some session else member rooms.active r v)
    unfolding enter member
    member-enter = elim (Option-cases (get rooms.active name)) [
      | inl e ↦ ground (
        arith,
        eq_iff name r,
        int_beq_iff user v,
        get-put rooms.active name r (record {
          id = row.id;
          creator_id = row.creator_id;
          name = row.name;
          members = put empty user session;
        }),
        get-put empty user v session,
        get-empty {V = ℕ} v,
      )
      | inr (room, e) ↦ ground (
        arith,
        eq_iff name r,
        int_beq_iff user v,
        get-put rooms.active name r (record room { members = put room.members user session }),
        get-put room.members user v session,
      )
    ]

    pub member-create_room :
        member (create_room rooms user session name row).active r v
        ≡ (if name == r && user == v then some session else member rooms.active r v)
    unfolding create_room member
    member-create_room = ground (
      arith,
      eq_iff name r,
      int_beq_iff user v,
      get-put rooms.active name r (record {
        id = row.id;
        creator_id = user;
        name = row.name;
        members = put (members_or_new (get rooms.active name)) user session;
      }),
      get-put (members_or_new (get rooms.active name)) user v session,
      get-empty {V = ℕ} v,
    )

-- A user who joins leaves the room that the maps had for them, and enters the new one.
pub member-join_room :
    (rooms : Rooms) (user v : ℤ) (r : String) (session : ℕ) (name : String) (row : Room)
    → member (join_room rooms user session name row).active r v ≡ (
        if user == v
        then if name == r
          then some session
          else if is_mapped_to rooms user r
          then none
          else member rooms.active r v
        else member rooms.active r v)
unfolding join_room
member-join_room rooms user v r session name row = ground (
  arith,
  member-enter (leave_current rooms user) user v r session name row,
  member-leave_current rooms user v r,
)

-- The map from users to rooms, after each operation.
module _ (rooms : Rooms) (user v : ℤ) where
  pub room_of-disconnect_user :
      get (disconnect_user rooms user).room_of v ≡ (if user == v then none else get rooms.room_of v)
  unfolding disconnect_user
  room_of-disconnect_user = ground (arith, int_beq_iff user v, get-erase rooms.room_of user v)

  pub room_of-leave_room :
      (name : String)
      → get (leave_room rooms user name).room_of v
        ≡ (if is_mapped_to rooms user name && user == v then none else get rooms.room_of v)
  unfolding leave_room is_mapped_to
  room_of-leave_room name = ground (arith, int_beq_iff user v, get-erase rooms.room_of user v)

  module _ (session : ℕ) (name : String) (row : Room) where
    pub room_of-create_room :
        get (create_room rooms user session name row).room_of v
        ≡ (if user == v then some name else get rooms.room_of v)
    unfolding create_room
    room_of-create_room = get-put rooms.room_of user v name

    pub room_of-join_room :
        get (join_room rooms user session name row).room_of v
        ≡ (if user == v then some name else get rooms.room_of v)
    unfolding join_room enter leave_current
    room_of-join_room = elim (Option-cases (get rooms.room_of user)) [
      | inl e ↦ ground (arith, get-put rooms.room_of user v name)
      | inr (old, e) ↦
          ground
            (arith, get-put (erase rooms.room_of user) user v name, get-erase rooms.room_of user v)
    ]

-- The room of a user who is mapped to one.
pub current_room_name_of :
    (rooms : Rooms) (user : ℤ) (name : String)
    → get rooms.room_of user ≡ some name
    → current_room_name rooms user ≡ name
unfolding current_room_name
current_room_name_of rooms user name h = ground arith

pub disconnect_user_of_none :
    (rooms : Rooms) (user : ℤ) → get rooms.room_of user ≡ none → disconnect_user rooms user ≡ rooms
unfolding disconnect_user
disconnect_user_of_none rooms user h = ground arith
