-- ===== src/RoomService/Together.antt =====
-- CREATE by one user and JOIN by another in server/src/service/RoomService.cpp.
use cpp_chat_server.Prelude.{
  ℤ, ℕ, String, ◌≡◌, ◌≢◌, sym, ap, ◌∙◌, subst, true, Option, none, some, arith, int_eq, int_beq_iff,
}
use cpp_chat_server.Domain.{Room, default_room}
use cpp_chat_server.Protocol.{join, create}
use cpp_chat_server.Repository.{Repositories, IRoomRepository}
use cpp_chat_server.Rooms.{step, creates}
use cpp_chat_server.Rooms.Invariant.{IsPlaced, step-IsPlaced}
use cpp_chat_server.Rooms.Refinement.{Placement, place, moved}
use cpp_chat_server.World.{World}
use cpp_chat_server.RoomService.{handle_room_operation}
use cpp_chat_server.RoomService.Moves.{join-moves, create-moves}

-- What the handlers rely on: a room that was added is found under its name.
pub record StoresRooms {Store : Type 0} (rooms : IRoomRepository Store) : Type 0 where
  pub added :
      (r r' : Room) (st st' : Store)
      → rooms.add_room r st ≡ (some (true, r'), st')
      → (st'' : Store) × (rooms.find_by_room_name r.name st' ≡ (some (some r'), st''))

moved_self : (p : Placement) (u : ℤ) (to : Option (String × ℕ)) → moved p u to u ≡ to
moved_self p u to = ground (arith, int_beq_iff u u)

moved_other : (p : Placement) (u v : ℤ) (to : Option (String × ℕ)) → u ≢ v → moved p u to v ≡ p v
moved_other p u v to d = ground (arith, int_beq_iff u v)

module _ {Store : Type 0} (repos : Repositories Store) (w : World Store) (s : ℕ) (user : ℤ)
    (username : String) (a : (w.session s).authenticated ≡ true)
    (i : (w.session s).user_id ≡ some user) (n : (w.session s).username ≡ some username)
    (name : String) (row : Room) (st st' : Store)
    (free : repos.rooms.find_by_room_name name w.store ≡ (some none, st))
    (add : repos.rooms.add_room (record default_room { name = name; creator_id = user }) st
      ≡ (some (true, row), st')) where
  abbrev created : World Store
  created = (handle_room_operation repos s create name w).1

  created-rooms : created.rooms ≡ step w.rooms (creates user s name row)
  unfolding handle_room_operation step
  created-rooms = ground arith

  created-store : created.store ≡ st'
  unfolding handle_room_operation step
  created-store = ground arith

  created-session : (t : ℕ) → created.session t ≡ w.session t
  unfolding handle_room_operation step
  created-session t = ground arith

  created-IsPlaced : IsPlaced w.rooms → IsPlaced created.rooms
  created-IsPlaced p =
      subst IsPlaced (sym created-rooms) (step-IsPlaced w.rooms (creates user s name row) p)

  created-place :
      IsPlaced w.rooms
      → (v : ℤ) → place created.rooms v ≡ moved (place w.rooms) user (some (name, s)) v
  created-place p v = create-moves repos w s user username a i n name row st st' free add p v

  created-joins :
      (t : ℕ) (guest : ℤ) (guest_name : String)
      → (w.session t).authenticated ≡ true
      → (w.session t).user_id ≡ some guest
      → (w.session t).username ≡ some guest_name
      → StoresRooms repos.rooms
      → IsPlaced w.rooms
      → (v : ℤ)
      → place (handle_room_operation repos t join name created).1.rooms v
        ≡ moved (place created.rooms) guest (some (name, t)) v
  created-joins t guest guest_name a₂ i₂ n₂ laws p v =
      let (st'', found) =
        laws.added (record default_room { name = name; creator_id = user }) row st st' add in
      (join-moves repos created t guest guest_name
          (ap (λ x. x.authenticated) (created-session t) ∙ a₂)
          (ap (λ x. x.user_id) (created-session t) ∙ i₂)
          (ap (λ x. x.username) (created-session t) ∙ n₂) name row st''
          (ap (repos.rooms.find_by_room_name name) created-store ∙ found) (created-IsPlaced p)).0
        v

  -- With a repository that finds an added room under its name: if an authenticated user creates a
  -- room of a free name, the repository takes it, and then another authenticated user joins the
  -- room of that name, then the first is placed in it with the session of the CREATE, and the
  -- second with that of the JOIN, provided whoever is mapped to a room was a member of it at the
  -- start.
  pub create-join :
      (t : ℕ) (guest : ℤ) (guest_name : String)
      → (w.session t).authenticated ≡ true
      → (w.session t).user_id ≡ some guest
      → (w.session t).username ≡ some guest_name
      → guest ≢ user
      → StoresRooms repos.rooms
      → IsPlaced w.rooms
      → let w' =
          (handle_room_operation repos t join name
            (handle_room_operation repos s create name w).1).1 in
        (place w'.rooms user ≡ some (name, s)) × (place w'.rooms guest ≡ some (name, t))
  create-join t guest guest_name a₂ i₂ n₂ other laws p =
      let at = created-joins t guest guest_name a₂ i₂ n₂ laws p in
      (
        at user
            ∙ moved_other (place created.rooms) guest user (some (name, t)) other
            ∙ created-place p user
            ∙ moved_self (place w.rooms) user (some (name, s)),
        at guest ∙ moved_self (place created.rooms) guest (some (name, t)),
      )
