-- ===== src/Server/Closing.antt =====
-- onDisconnect of server/src/core/Server.cpp, for a session with a user.
use cpp_chat_server.Prelude.{
  ℤ, ℕ, String, ◌≡◌, ◌≢◌, none, some, arith, ◌==◌, ◌&&◌, if◌then◌else◌, int_eq, string_eq,
  int_beq_iff, eq_iff,
}
use cpp_chat_server.Map.{get, get-erase}
use cpp_chat_server.Rooms.{disconnects, step}
use cpp_chat_server.Rooms.Membership.{
  member, is_mapped_to, disconnect_user_of_none, member-disconnect_user,
}
use cpp_chat_server.Rooms.Invariant.{IsPlaced}
use cpp_chat_server.Rooms.Refinement.{place, place-step, moved}
use cpp_chat_server.RoomService.{handle_disconnect}
use cpp_chat_server.World.{World}
use cpp_chat_server.SessionManager.{remove}
use cpp_chat_server.SessionManager.Index.{AreIdentified, IsIndexed}
use cpp_chat_server.Server.{on_disconnect}

module _ {Store : Type 0} (w : World Store) (s : ℕ) (a : AreIdentified w) where
  -- When a session with a user ends, in a server whose sessions have a user id and a name exactly
  -- while they are authenticated, whose indexes name the sessions' own users, and in which whoever
  -- is mapped to a room is a member of it: that user is then placed nowhere and everyone else is
  -- placed where they were; the user is taken out of the members of the room that they were mapped
  -- to, every other membership is as before, and the session is in neither index.
  pub on_disconnect-clears :
      (user : ℤ)
      → (w.session s).user_id ≡ some user
      → IsIndexed w
      → IsPlaced w.rooms
      → let w' = (on_disconnect s w).1 in
        ((v : ℤ) → place w'.rooms v ≡ moved (place w.rooms) user none v)
        × ((r : String) (v : ℤ)
            → member w'.rooms.active r v ≡ (
                if is_mapped_to w.rooms user r && user == v
                then none
                else member w.rooms.active r v))
        × ((id : ℤ) → get w'.manager.sessions_by_user_id id ≢ some s)
        × ((name : String) → get w'.manager.sessions_by_username name ≢ some s)
  unfolding on_disconnect handle_disconnect remove step
  on_disconnect-clears user i x p = (
    λ v. ground (
      arith,
      a.at s,
      disconnect_user_of_none w.rooms user,
      place-step w.rooms (disconnects user) v p,
    ),
    λ r v. ground (
      arith,
      a.at s,
      disconnect_user_of_none w.rooms user,
      member-disconnect_user w.rooms user v r,
    ),
    λ id h. ground (
      arith,
      a.at s,
      x.by_id id s,
      get-erase w.manager.sessions_by_user_id user id,
      int_beq_iff user id,
    ),
    λ name h. grind (arith, a.at s, x.by_name name s, get-erase, eq_iff),
  )
