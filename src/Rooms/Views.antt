-- ===== src/Rooms/Views.antt =====
-- The room maps of server/src/service/RoomService.h as two functions: the room that each user is mapped to,
-- and the session of each member of each room. How the maps keep them, what else an active room holds and
-- the empty-room clean-up are forgotten.
use cpp_chat_server.Prelude.{
  ℤ, ℕ, String, ◌≡◌, refl, ap, ◌∙◌, Bool, false, Option, none, some, List, [], ◌∷◌, arith, ◌==◌,
  ◌&&◌, if◌then◌else◌, int_eq, string_eq, eq_iff, int_beq_iff,
}
use cpp_chat_server.Map.{get}
use cpp_chat_server.Rooms.{Rooms, Section, joins, leaves, creates, disconnects, step, run}
use cpp_chat_server.Rooms.Membership.{
  member, is_mapped_to, member-disconnect_user, member-leave_room, member-create_room,
  member-join_room, room_of-disconnect_user, room_of-leave_room, room_of-create_room,
  room_of-join_room,
}

pub record View : Type 0 where
  pub room : ℤ → Option String
  pub session : String → ℤ → Option ℕ

abbrev pub view : Rooms → View
view rooms = record { room = λ u. get rooms.room_of u; session = λ r u. member rooms.active r u }

abbrev pub is_named : Option String → String → Bool
is_named none name = false
is_named (some r) name = r == name

-- A user out of the room that they are mapped to, and out of no other.
abbrev pub out_of_current : View → ℤ → View
out_of_current v user = record {
  room = λ u. if user == u then none else v.room u;
  session = λ r u. if is_named (v.room user) r && user == u then none else v.session r u;
}

-- A user into a room, with a session, and out of none.
abbrev pub into : View → ℤ → String → ℕ → View
into v user name s = record {
  room = λ u. if user == u then some name else v.room u;
  session = λ r u. if name == r && user == u then some s else v.session r u;
}

-- What each operation means.
abbrev pub view_step : View → Section → View
view_step v (joins user s name row) = into (out_of_current v user) user name s
view_step v (leaves user name) = if is_named (v.room user) name then out_of_current v user else v
view_step v (creates user s name row) = into v user name s
view_step v (disconnects user) = out_of_current v user

abbrev pub view_run : View → List Section → View
view_run v [] = v
view_run v (c ∷ cs) = view_run (view_step v c) cs

same_view :
    (v w : View)
    → ((u : ℤ) → v.room u ≡ w.room u)
    → ((r : String) (u : ℤ) → v.session r u ≡ w.session r u)
    → v ≡ w
same_view v w f g i = record { room = λ u. f u i; session = λ r u. g r u i }

is_named-mapped :
    (rooms : Rooms) (user : ℤ) (name : String)
    → is_mapped_to rooms user name ≡ is_named (get rooms.room_of user) name
unfolding is_mapped_to
is_named-mapped rooms user name = ground arith

ruleset view_laws = (
  arith, eq_iff, int_beq_iff, is_named-mapped, member-join_room, room_of-join_room,
  member-leave_room, room_of-leave_room, member-create_room, room_of-create_room,
  member-disconnect_user, room_of-disconnect_user,
)

view-step : (rooms : Rooms) (c : Section) → view (step rooms c) ≡ view_step (view rooms) c
unfolding step
view-step rooms (joins user session name row) =
    same_view _ _ (λ u. grind view_laws) (λ r u. grind view_laws)
view-step rooms (leaves user name) = same_view _ _ (λ u. grind view_laws) (λ r u. grind view_laws)
view-step rooms (creates user session name row) =
    same_view _ _ (λ u. grind view_laws) (λ r u. grind view_laws)
view-step rooms (disconnects user) = same_view _ _ (λ u. grind view_laws) (λ r u. grind view_laws)

pub view-run : (rooms : Rooms) (cs : List Section) → view (run rooms cs) ≡ view_run (view rooms) cs
unfolding run
view-run rooms [] = refl
view-run rooms (c ∷ cs) = view-run (step rooms c) cs ∙ ap (λ v. view_run v cs) (view-step rooms c)
