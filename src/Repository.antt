-- ===== src/Repository.antt =====
-- server/src/data/I*Repository.h: what the services ask of the database. A call may throw, and the
-- repository's own state (the tables, the connections) goes through it. `addUser`, `addRoom` and
-- `addMessage` write the new identifier and time into the object that they are given.
use cpp_chat_server.Prelude.{ℤ, String, Bool, Option, List}
use cpp_chat_server.Domain.{User, Room, Message}

-- `none` is a soci_error that the method throws again; it is the only exception that leaves one.
abbrev pub Query : Type 0 → Type 0 → Type 0
Query Store A = Store → Option A × Store

pub record IUserRepository (Store : Type 0) : Type 0 where
  pub find_by_username : String → Query Store (Option User)
  pub find_by_user_id : ℤ → Query Store (Option User)
  pub get_all_users : Query Store (List User)
  pub update_user : User → Query Store Bool
  pub add_user : User → Query Store (Bool × User)
  pub remove_user : ℤ → Query Store Bool

pub record IRoomRepository (Store : Type 0) : Type 0 where
  pub find_by_room_id : ℤ → Query Store (Option Room)
  pub find_by_room_name : String → Query Store (Option Room)
  pub find_by_creator_id : ℤ → Query Store (Option Room)
  pub get_all_rooms : Query Store (List Room)
  pub update_room : Room → Query Store Bool
  pub add_room : Room → Query Store (Bool × Room)
  pub remove_room : ℤ → Query Store Bool

pub record IMessageRepository (Store : Type 0) : Type 0 where
  pub find_by_message_id : ℤ → Query Store (Option Message)
  pub find_by_sender_id : ℤ → Query Store (List Message)
  pub find_by_room_id : ℤ → Query Store (List Message)
  pub find_by_content : String → Query Store (List Message)
  pub find_latest_by_room_id : ℤ → ℤ → Query Store (List Message)
  pub add_message : Message → Query Store (Bool × Message)
  pub remove_message : ℤ → Query Store Bool

-- The three that `Server` builds and hands to its services.
pub record Repositories (Store : Type 0) : Type 0 where
  pub users : IUserRepository Store
  pub rooms : IRoomRepository Store
  pub messages : IMessageRepository Store
