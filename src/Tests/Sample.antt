-- ===== src/Tests/Sample.antt =====
-- A server with two users in one room, a database that keeps its users in a list, and an OpenSSL that
-- tells two texts apart.
use cpp_chat_server.Prelude.{
  ℤ, pos, ℕ, String, ◌≡◌, ◌≢◌, true, false, Option, none, some, List, [], ◌∷◌, arith, ◌==◌,
  if◌then◌else◌, nat_eq, int_eq, string_eq, eq_iff, int_beq_iff,
}
use cpp_chat_server.Map.{empty, put, get, get-put, get-empty, is_empty-put}
use cpp_chat_server.Domain.{User, Room, Message}
use cpp_chat_server.Repository.{Query, IUserRepository, Repositories}
use cpp_chat_server.Rooms.{Rooms}
use cpp_chat_server.Rooms.Membership.{member}
use cpp_chat_server.Rooms.Invariant.{IsPlaced, IsExclusive, IsInhabited, IsValid}
use cpp_chat_server.Session.{Session, new_session}
use cpp_chat_server.SessionManager.Index.{AreIdentified, IsIndexed}
use cpp_chat_server.World.{World, SessionManager, Env}

-- The newest row of a user first.
abbrev pub Store : Type 0
Store = List User

abbrev find_name : String → List User → Option User
find_name name [] = none
find_name name (u ∷ l) = let rest = find_name name l in if u.username == name then some u else rest

abbrev pub find_id : ℤ → List User → Option User
find_id id [] = none
find_id id (u ∷ l) = let rest = find_id id l in if u.id == id then some u else rest

abbrev pub answer : {A : Type 0} → A → Query Store A
answer a st = (some a, st)

abbrev pub users : IUserRepository Store
users = record {
  find_by_username = λ name st. (some (find_name name st), st);
  find_by_user_id = λ id st. (some (find_id id st), st);
  get_all_users = λ st. (some st, st);
  update_user = λ u st. (some true, u ∷ st);
  add_user = λ u st. (some (true, u), u ∷ st);
  remove_user = λ id. answer false;
}

abbrev pub lobby : Room
lobby = record { id = pos 1; name = "lobby"; creator_id = pos 7; created_at = pos 0 }

abbrev pub stored : Message
stored = record {
  id = pos 9;
  room_id = pos 1;
  sender_id = pos 7;
  content = "hello";
  created_at = pos 1500000000;
}

-- One room, "lobby", and one message.
abbrev pub repos : Repositories Store
repos = record {
  users = users;
  rooms = record {
    find_by_room_id = λ id. answer none;
    find_by_room_name = λ name. answer (if name == "lobby" then some lobby else none);
    find_by_creator_id = λ id. answer none;
    get_all_rooms = answer (lobby ∷ []);
    update_room = λ room. answer false;
    add_room = λ room. answer (true, room);
    remove_room = λ id. answer false;
  };
  messages = record {
    find_by_message_id = λ id. answer none;
    find_by_sender_id = λ id. answer [];
    find_by_room_id = λ id. answer (stored ∷ []);
    find_by_content = λ content. answer [];
    find_latest_by_room_id = λ id limit. answer (stored ∷ []);
    add_message = λ m. answer (true, m);
    remove_message = λ id. answer false;
  };
}

-- A database that answers `updateUser` with false.
abbrev pub refusing : Repositories Store
refusing = record repos { users = record users { update_user = λ u. answer false } }

abbrev pub env : Env
env = record {
  now = record { seconds = pos 100; nanos = pos 0 };
  rand_bytes = λ n. some (1 ∷ 2 ∷ []);
  sha256 = λ text. if text == "secret0102" then 171 ∷ [] else 205 ∷ [];
}

abbrev pub alice : User
alice = record {
  id = pos 7;
  username = "alice";
  hashed_password = "ab";
  salt = "0102";
  created_at = pos 0;
}

-- alice, as user 7, on session 1, and bob, as user 8, on session 2; nobody is logged in on the others.
abbrev pub sessions : ℕ → Session
sessions s =
    if s == 1
    then record { user_id = some (pos 7); username = some "alice"; authenticated = true }
    else if s == 2
    then record { user_id = some (pos 8); username = some "bob"; authenticated = true }
    else new_session

abbrev pub manager : SessionManager
manager = record {
  sessions = empty;
  sessions_by_user_id = put (put empty (pos 7) 1) (pos 8) 2;
  sessions_by_username = put (put empty "alice" 1) "bob" 2;
}

-- Both are in "lobby".
abbrev pub rooms : Rooms
rooms = record {
  active = put empty "lobby" (record {
    id = pos 1;
    creator_id = pos 7;
    name = "lobby";
    members = put (put empty (pos 7) 1) (pos 8) 2;
  });
  room_of = put (put empty (pos 7) "lobby") (pos 8) "lobby";
}

abbrev pub world : World Store
world = record {
  session = sessions;
  manager = manager;
  rooms = rooms;
  store = alice ∷ [];
  sent = [];
}

pub AreIdentified-world : AreIdentified world
AreIdentified-world = record { at = λ s. ground arith }

pub IsIndexed-world : IsIndexed world
IsIndexed-world = record {
  by_id = λ id s h. grind (arith, get-put, get-empty, int_beq_iff);
  by_name = λ name s h. grind (arith, get-put, get-empty, eq_iff);
}

pub IsPlaced-rooms : IsPlaced rooms
unfolding member
IsPlaced-rooms = record { at = λ u r h. grind (arith, get-put, get-empty, int_beq_iff, eq_iff) }

pub IsInhabited-rooms : IsInhabited rooms
IsInhabited-rooms = record { at = λ r room h. grind (arith, get-put, get-empty, is_empty-put) }

pub IsExclusive-rooms : IsExclusive rooms
unfolding member
IsExclusive-rooms = record { at = λ u r h. grind (arith, get-put, get-empty, int_beq_iff, eq_iff) }

pub room_of-alice : get rooms.room_of (pos 7) ≡ some "lobby"
room_of-alice = grind (arith, get-put, int_beq_iff (pos 8) (pos 7), int_beq_iff (pos 7) (pos 7))

pub IsValid-rooms : IsValid rooms
IsValid-rooms = record { placed = IsPlaced-rooms; inhabited = IsInhabited-rooms }

-- Rooms as they stand after a section can be asked for by their members.
pub member-alice : member rooms.active "lobby" (pos 7) ≡ some 1
unfolding member
member-alice = grind (arith, get-put, int_beq_iff (pos 8) (pos 7), int_beq_iff (pos 7) (pos 7))

pub find-bob : get manager.sessions_by_username "bob" ≡ some 2
find-bob = grind (arith, get-put)

pub find-alice : get manager.sessions_by_username "alice" ≡ some 1
find-alice = grind (arith, get-put)

pub lobby-not-den : ◌≢◌ {A = String} "lobby" "den"
lobby-not-den = ground (arith, eq_iff "lobby" "den")
