-- ===== src/Rooms/Refinement.antt =====
-- The room maps of RoomService as what they stand for: where each user is, and through which
-- session. The two hash maps and the empty-room clean-up are forgotten.
use cpp_chat_server.Prelude.{
  ℤ, ℕ, String, ◌≡◌, ◌≢◌, ◌↔◌, refl, sym, ◌∙◌, Bool, false, Option, none, some, List, [], ◌∷◌,
  arith, ◌==◌, ◌&&◌, if◌then◌else◌, int_eq, string_eq, eq_iff, int_beq_iff, Option-cases, inl, inr,
}
use cpp_chat_server.Map.{get}
use cpp_chat_server.Domain.{Room}
use cpp_chat_server.Rooms.{
  Rooms, create_room, disconnect_user, Section, joins, leaves, creates, disconnects, step, run,
}
use cpp_chat_server.Rooms.Membership.{
  member, is_mapped_to, member-disconnect_user, member-leave_room, member-create_room,
  member-join_room, room_of-disconnect_user, room_of-leave_room, room_of-create_room,
  room_of-join_room,
}
use cpp_chat_server.Rooms.Invariant.{
  IsPlaced, IsExclusive, IsOrderly, step-IsPlaced, step-IsExclusive,
}
use cpp_chat_server.Rooms.Views.{view, view_run, view-run}

-- The room and the session of each user who is in a room.
abbrev pub Placement : Type 0
Placement = ℤ → Option (String × ℕ)

abbrev with_room : String → Option ℕ → Option (String × ℕ)
with_room r none = none
with_room r (some s) = some (r, s)

-- The room that the user is mapped to, if they are a member of it. Memberships of other rooms are not
-- seen here.
pub place : Rooms → Placement
place rooms u = elim (get rooms.room_of u) [
  | none ↦ none
  | some r ↦ with_room r (member rooms.active r u)
]

abbrev pub moved : Placement → ℤ → Option (String × ℕ) → Placement
moved p user to u = if user == u then to else p u

abbrev pub is_in : Option (String × ℕ) → String → Bool
is_in none name = false
is_in (some (r, _)) name = r == name

-- What each operation means: a user has one place, and JOIN, LEAVE, CREATE and a lost connection
-- change that of the one who asks.
abbrev pub spec_step : Placement → Section → Placement
spec_step p (joins user session name row) = moved p user (some (name, session))
spec_step p (leaves user name) = λ u. if is_in (p user) name && user == u then none else p u
spec_step p (creates user session name row) = moved p user (some (name, session))
spec_step p (disconnects user) = moved p user none

abbrev pub spec_run : Placement → List Section → Placement
spec_run p [] = p
spec_run p (c ∷ cs) = spec_run (spec_step p c) cs

ruleset room_laws = (
  arith, eq_iff, int_beq_iff, member-join_room, room_of-join_room, member-leave_room,
  room_of-leave_room, member-create_room, room_of-create_room, member-disconnect_user,
  room_of-disconnect_user,
)

-- A placed user who is mapped to a room is in it.
is_in-place :
    (rooms : Rooms) (user : ℤ) (name : String)
    → IsPlaced rooms
    → is_in (place rooms user) name ≡ is_mapped_to rooms user name
unfolding place is_mapped_to
is_in-place rooms user name p = elim (Option-cases (get rooms.room_of user)) [
  | inl e ↦ ground arith
  | inr (r, e) ↦ ground (arith, p.at user r)
]

-- Each locked section does to the placement what its specification says.
pub place-step :
    (rooms : Rooms) (c : Section) (u : ℤ)
    → IsPlaced rooms
    → place (step rooms c) u ≡ spec_step (place rooms) c u
unfolding step place is_mapped_to
place-step rooms (leaves user name) u p = rw (is_in-place rooms user name p) (grind room_laws)
place-step rooms (joins user session name row) u p = grind (room_laws, eq_iff name name)
place-step rooms (creates user session name row) u p = grind (room_laws, eq_iff name name)
place-step rooms (disconnects user) u p = grind room_laws

spec_step-congr :
    (p q : Placement) (c : Section)
    → ((u : ℤ) → p u ≡ q u)
    → (u : ℤ) → spec_step p c u ≡ spec_step q c u
spec_step-congr p q (leaves user name) h u = ground (arith, h u, h user)
spec_step-congr p q _ h u = ground (arith, h u)

spec_run-congr :
    (p q : Placement) (cs : List Section)
    → ((u : ℤ) → p u ≡ q u)
    → (u : ℤ) → spec_run p cs u ≡ spec_run q cs u
spec_run-congr p q [] h u = h u
spec_run-congr p q (c ∷ cs) h u =
    spec_run-congr (spec_step p c) (spec_step q c) cs (spec_step-congr p q c h) u

places-run :
    (rooms : Rooms) (cs : List Section) (u : ℤ)
    → IsPlaced rooms
    → place (run rooms cs) u ≡ spec_run (place rooms) cs u
unfolding run
places-run rooms [] u p = refl
places-run rooms (c ∷ cs) u p =
    places-run (step rooms c) cs u (step-IsPlaced rooms c p)
    ∙ spec_run-congr (place (step rooms c)) (spec_step (place rooms) c) cs
        (λ v. place-step rooms c v p) u

-- From room maps in which whoever is mapped to a room is a member of it, every schedule of the
-- locked sections of JOIN, LEAVE, CREATE and a lost connection does what two specifications say.
-- Of where each user is, with which session: JOIN and CREATE put the one who asks, and nobody
-- else, into the room; LEAVE takes them out if they are in that room; a lost connection takes them
-- out. And of who is mapped to which room and who is a member of which, with which session: JOIN
-- takes the user out of the room that they are mapped to and puts them into the new one; LEAVE
-- takes them out of it if it is the one named, and a lost connection in any case; CREATE puts them
-- into the new room and takes them out of none.
pub place-run :
    (rooms : Rooms) (cs : List Section) (u : ℤ)
    → IsPlaced rooms
    → (place (run rooms cs) u ≡ spec_run (place rooms) cs u)
      × (view (run rooms cs) ≡ view_run (view rooms) cs)
place-run rooms cs u p = (places-run rooms cs u p, view-run rooms cs)

-- Where whoever is mapped to a room is a member of it, and whoever is a member is mapped to it,
-- the members of a room and their sessions are exactly those who are placed there.
member-iff-place :
    (rooms : Rooms) (r : String) (u : ℤ) (s : ℕ)
    → IsPlaced rooms
    → IsExclusive rooms
    → (member rooms.active r u ≡ some s) ↔ (place rooms u ≡ some (r, s))
unfolding place
member-iff-place rooms r u s p x = (forward, backward)
  where
    forward : member rooms.active r u ≡ some s → place rooms u ≡ some (r, s)
    forward h = ground (arith, x.at u r)

    backward : place rooms u ≡ some (r, s) → member rooms.active r u ≡ some s
    backward h = elim (Option-cases (get rooms.room_of u)) [
      | inl e ↦ ground arith
      | inr (q, e) ↦ ground arith
    ]

-- A schedule in which only users who are in no other room CREATE.
abbrev pub AreOrderly : Rooms → List Section → Type 0
AreOrderly rooms [] = Unit {0}
AreOrderly rooms (c ∷ cs) = IsOrderly rooms c × AreOrderly (step rooms c) cs

run-IsPlaced : (rooms : Rooms) (cs : List Section) → IsPlaced rooms → IsPlaced (run rooms cs)
unfolding run
run-IsPlaced rooms [] p = p
run-IsPlaced rooms (c ∷ cs) p = run-IsPlaced (step rooms c) cs (step-IsPlaced rooms c p)

run-IsExclusive :
    (rooms : Rooms) (cs : List Section)
    → AreOrderly rooms cs
    → IsExclusive rooms
    → IsExclusive (run rooms cs)
unfolding run
run-IsExclusive rooms [] o x = x
run-IsExclusive rooms (c ∷ cs) (o, os) x =
    run-IsExclusive (step rooms c) cs os (step-IsExclusive rooms c o x)

-- From room maps in which the members of a room and those mapped to it are the same, after every
-- schedule of the locked sections of JOIN, LEAVE, CREATE and a lost connection in which only users
-- who are in no other room CREATE: the members of each room and their sessions are exactly those
-- whom the specification on placements puts there.
pub member-run :
    (rooms : Rooms) (cs : List Section) (r : String) (u : ℤ) (s : ℕ)
    → IsPlaced rooms
    → IsExclusive rooms
    → AreOrderly rooms cs
    → (member (run rooms cs).active r u ≡ some s) ↔ (spec_run (place rooms) cs u ≡ some (r, s))
member-run rooms cs r u s p x o =
    let (there, back) =
      member-iff-place (run rooms cs) r u s (run-IsPlaced rooms cs p)
        (run-IsExclusive rooms cs o x) in
    let same = places-run rooms cs u p in (λ h. sym same ∙ there h, λ h. back (same ∙ h))

-- A user who is a member of a room with some session and CREATEs a room of another name is then
-- mapped to the new room and still a member of the old one with that session; and when their
-- connection is then lost, they are mapped to no room and still a member of the old one with that
-- session.
pub member-create-disconnect :
    (rooms : Rooms) (user : ℤ) (s session : ℕ) (r name : String) (row : Room)
    → member rooms.active r user ≡ some s
    → r ≢ name
    → let created = create_room rooms user session name row in
      let ended = disconnect_user created user in
      (get created.room_of user ≡ some name)
      × (member created.active r user ≡ some s)
      × (get ended.room_of user ≡ none)
      × (member ended.active r user ≡ some s)
unfolding is_mapped_to
member-create-disconnect rooms user s session r name row h ne =
    (grind room_laws, grind room_laws, grind room_laws, grind room_laws)
