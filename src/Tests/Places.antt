-- ===== src/Tests/Places.antt =====
-- Where the users are, at concrete schedules.
use cpp_chat_server.Prelude.{
  ℤ, pos, ◌≡◌, ◌≢◌, ◌↔◌, refl, true, none, some, List, [], ◌∷◌, ◌++◌, map, concat, string_eq,
  int_eq,
}
use cpp_chat_server.Map.{get}
use cpp_chat_server.Rooms.{
  Section, joins, leaves, creates, disconnects, step, run, create_room, disconnect_user,
}
use cpp_chat_server.Rooms.Membership.{member}
use cpp_chat_server.Rooms.Views.{view, view_run}
use cpp_chat_server.Rooms.Invariant.{IsExclusive, step-IsExclusive}
use cpp_chat_server.Rooms.Refinement.{
  place, place-run, spec_run, moved, member-run, member-create-disconnect,
}
use cpp_chat_server.Protocol.{join, user_joined}
use cpp_chat_server.RoomService.{
  handle_room_operation, recipients, members_of, notice, joined, room_response,
}
use cpp_chat_server.RoomService.Recipients.{Has, recipients-iff-member}
use cpp_chat_server.RoomService.Moves.{join-moves}
use cpp_chat_server.Tests.Sample.{
  rooms, world, repos, lobby, IsPlaced-rooms, IsExclusive-rooms, member-alice, lobby-not-den, alice,
}

-- bob leaves, alice makes a room, and her connection ends.
abbrev schedule : List Section
schedule =
    leaves (pos 8) "lobby"
    ∷ creates (pos 7) 1 "den" lobby
    ∷ joins (pos 8) 2 "den" lobby
    ∷ disconnects (pos 7)
    ∷ []

place-run_example :
    (place (run rooms schedule) (pos 8) ≡ spec_run (place rooms) schedule (pos 8))
    × (view (run rooms schedule) ≡ view_run (view rooms) schedule)
place-run_example = place-run rooms schedule (pos 8) IsPlaced-rooms

step-IsExclusive_example : IsExclusive (step rooms (joins (pos 7) 1 "den" lobby))
step-IsExclusive_example = step-IsExclusive rooms (joins (pos 7) 1 "den" lobby) tt IsExclusive-rooms

-- bob leaves and joins another room, and alice's connection ends.
abbrev moves : List Section
moves = leaves (pos 8) "lobby" ∷ joins (pos 8) 2 "den" lobby ∷ disconnects (pos 7) ∷ []

member-run_example :
    (member (run rooms moves).active "den" (pos 8) ≡ some 2)
    ↔ (spec_run (place rooms) moves (pos 8) ≡ some ("den", 2))
member-run_example =
    member-run rooms moves "den" (pos 8) 2 IsPlaced-rooms IsExclusive-rooms (tt, (tt, (tt, tt)))

-- alice, in the lobby, makes a room, and her connection ends.
member-create-disconnect_example :
    let created = create_room rooms (pos 7) 1 "den" lobby in
    let ended = disconnect_user created (pos 7) in
    (get created.room_of (pos 7) ≡ some "den")
    × (member created.active "lobby" (pos 7) ≡ some 1)
    × (get ended.room_of (pos 7) ≡ none)
    × (member ended.active "lobby" (pos 7) ≡ some 1)
member-create-disconnect_example =
    member-create-disconnect rooms (pos 7) 1 1 "lobby" "den" lobby member-alice lobby-not-den

-- bob is left out of what alice's room is sent.
recipients-iff-member_example :
    Has 1 (recipients (members_of (get rooms.active "lobby")) (pos 8))
    ↔ ((v : ℤ) × (member rooms.active "lobby" v ≡ some 1) × (v ≢ pos 8))
recipients-iff-member_example = recipients-iff-member rooms "lobby" (pos 8) 1

join-moves_example :
    let w' = (handle_room_operation repos 1 join "lobby" world).1 in
    ((v : ℤ) → place w'.rooms v ≡ moved (place world.rooms) (pos 7) (some ("lobby", 1)) v)
    × (w'.sent
        ≡ (world.sent
            ++ map
                (λ t. (t, notice user_joined (pos 7) "alice" joined))
                (recipients (members_of (get w'.rooms.active "lobby")) (pos 7)))
          ++ (
            1,
            room_response true join "lobby"
                (concat ("Joined room " ∷ "lobby" ∷ " successfully." ∷ [])),
          )
            ∷ [])
join-moves_example =
    join-moves repos world 1 (pos 7) "alice" refl refl refl "lobby" lobby (alice ∷ []) refl
      IsPlaced-rooms
