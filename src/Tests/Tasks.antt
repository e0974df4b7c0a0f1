-- ===== src/Tests/Tasks.antt =====
-- The server's tasks, at concrete histories.
use cpp_chat_server.Prelude.{
  ℤ, pos, String, ◌≡◌, ◌≢◌, refl, none, some, List, [], ◌∷◌, ◌++◌, string_eq, int_eq, nat_eq, ◌==◌,
  ◌&&◌, if◌then◌else◌,
}
use cpp_chat_server.Map.{get}
use cpp_chat_server.Exec.{ok}
use cpp_chat_server.Protocol.{
  envelope, public_message, login_request, room_operation_request, create,
}
use cpp_chat_server.World.{Env}
use cpp_chat_server.Rooms.Invariant.{IsValid}
use cpp_chat_server.Rooms.Refinement.{place, moved}
use cpp_chat_server.AuthService.{refuse}
use cpp_chat_server.Server.{
  dispatch_message, on_disconnect, Task, message, closed, run_task, run_tasks,
}
use cpp_chat_server.Server.Handlers.{IsKnown}
use cpp_chat_server.Server.Identity.{run_tasks-IsKnown}
use cpp_chat_server.Server.Placement.{run_tasks-IsValid}
use cpp_chat_server.Server.Gate.{dispatch_unauthenticated}
use cpp_chat_server.Rooms.Membership.{member, is_mapped_to}
use cpp_chat_server.Server.Closing.{on_disconnect-clears}
use cpp_chat_server.Tests.Sample.{
  repos, env, world, IsPlaced-rooms, IsValid-rooms, AreIdentified-world, IsIndexed-world,
}

-- alice makes a room, a third session logs in as her too, her first session ends, and bob speaks.
abbrev history : List (Env × Task)
history =
    (env, message 1 (envelope (room_operation_request create "den")))
    ∷ (env, message 3 (envelope (login_request "alice" "secret")))
    ∷ (env, closed 1)
    ∷ (env, message 2 (envelope (public_message "hi")))
    ∷ []

dispatch_unauthenticated_example :
    dispatch_message env repos 3 (envelope (public_message "hi")) world
    ≡ (ok tt, record world { sent = world.sent ++ (3, refuse "Authentication required.") ∷ [] })
dispatch_unauthenticated_example =
    dispatch_unauthenticated env repos world 3 (envelope (public_message "hi")) refl refl

run_tasks-IsValid_example : IsValid (run_tasks repos world history).rooms
run_tasks-IsValid_example = run_tasks-IsValid repos world history IsValid-rooms

run_tasks-IsKnown_example :
    IsKnown (run_task repos env (closed 2) (run_tasks repos world history)).0
run_tasks-IsKnown_example = run_tasks-IsKnown repos world history env (closed 2) AreIdentified-world

on_disconnect-clears_example :
    let w' = (on_disconnect 1 world).1 in
    ((v : ℤ) → place w'.rooms v ≡ moved (place world.rooms) (pos 7) none v)
    × ((r : String) (v : ℤ)
        → member w'.rooms.active r v ≡ (
            if is_mapped_to world.rooms (pos 7) r && pos 7 == v
            then none
            else member world.rooms.active r v))
    × ((id : ℤ) → get w'.manager.sessions_by_user_id id ≢ some 1)
    × ((name : String) → get w'.manager.sessions_by_username name ≢ some 1)
on_disconnect-clears_example =
    on_disconnect-clears world 1 AreIdentified-world (pos 7) refl IsIndexed-world IsPlaced-rooms
