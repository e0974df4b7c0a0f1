-- ===== src/Domain.antt =====
-- common/src/domain: the entities that the database holds.
use cpp_chat_server.Prelude.{ℤ, pos, String}

-- std::chrono::system_clock::time_point, as the count of its ticks, here nanoseconds.
abbrev pub TimePoint : Type 0
TimePoint = ℤ

pub record User : Type 0 where
  pub id : ℤ
  pub username : String
  pub hashed_password : String
  pub salt : String
  pub created_at : TimePoint

pub record Room : Type 0 where
  pub id : ℤ
  pub name : String
  pub creator_id : ℤ
  pub created_at : TimePoint

pub record Message : Type 0 where
  pub id : ℤ
  pub room_id : ℤ
  pub sender_id : ℤ
  pub content : String
  pub created_at : TimePoint

-- The default constructors leave the integer fields without a value; the program sets such a field
-- before it reads it. The model puts 0 there.
abbrev pub unset : ℤ
unset = pos 0

abbrev pub default_user : User
default_user = record {
  id = unset;
  username = "";
  hashed_password = "";
  salt = "";
  created_at = unset;
}

abbrev pub default_room : Room
default_room = record { id = unset; name = ""; creator_id = unset; created_at = unset }

abbrev pub default_message : Message
default_message = record {
  id = unset;
  room_id = unset;
  sender_id = unset;
  content = "";
  created_at = unset;
}
