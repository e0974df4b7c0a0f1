-- ===== src/Tests/RoomTable.antt =====
-- A database that keeps the table `rooms` as a list of rows, the newest first.
use cpp_chat_server.Prelude.{
  ℤ, pos, ℕ, suc, ◌≡◌, refl, ap, ◌∙◌, sym, String, Bool, Option, none, some, List, [], ◌∷◌, map,
  arith, length, ◌==◌, int_eq, int_beq_iff, string_eq, eq_iff, true,
}
use cpp_chat_server.Domain.{Room, default_room}
use cpp_chat_server.Protocol.{join, create}
use cpp_chat_server.Repository.{Repositories}
use cpp_chat_server.World.{World}
use cpp_chat_server.Rooms.Refinement.{place}
use cpp_chat_server.RoomService.{handle_room_operation}
use cpp_chat_server.RoomService.Together.{StoresRooms, create-join}
use cpp_chat_server.Data.Driver.{
  Driver, Tm, Cell, Value, integer, text, Outcome, value, raises, std_exception, Backend, pure,
  lift, ◌>>=◌, ◌>>◌, recover, pair_with, give_back, close, commit, update, try_or,
}
use cpp_chat_server.Data.Tables.{mysql_repositories}
use cpp_chat_server.Data.RoomTable.{
  mysql_rooms, find_room_by_name, look_up_room, found_room, add_room, add_room_block, stored_room,
  read_room_time, commit_room_if, first_time,
}
use cpp_chat_server.Data.Times.{found_at}
use cpp_chat_server.Data.RoomTable.Rows.{RoomRow, room_cells, room_time, keep, KeepsRooms}
use cpp_chat_server.Data.RoomTable.Stores.{mysql_rooms-StoresRooms}
use cpp_chat_server.Tests.Sample.{rooms, world, IsPlaced-rooms}

abbrev same : String → String → Bool
same a b = a == b

abbrev noon : Tm
noon = record {
  year = pos 125;
  month = pos 8;
  day = pos 3;
  hour = pos 12;
  minute = pos 0;
  second = pos 0;
}

abbrev select_rows : List Value → List RoomRow → List (List Cell)
select_rows (text name ∷ []) db = map room_cells (keep (λ r. same r.name name) db)
select_rows (integer id ∷ []) db = map room_time (keep (λ r. r.id == id) db)
select_rows _ db = []

abbrev new_row : String → ℤ → List RoomRow → RoomRow
new_row name creator_id db = record {
  id = pos (suc (length db));
  name = name;
  creator_id = creator_id;
  created_at = some noon;
}

-- An INSERT, unless some row has the name.
abbrev insert_row : List RoomRow → RoomRow → List RoomRow → Outcome ℕ × List RoomRow
insert_row [] r db = (value 1, r ∷ db)
insert_row (_ ∷ _) r db = (raises std_exception, db)

abbrev change_rows : List Value → List RoomRow → Outcome ℕ × List RoomRow
change_rows (text name ∷ integer creator_id ∷ []) db =
    insert_row (keep (λ r. same r.name name) db) (new_row name creator_id db) db
change_rows _ db = (value 0, db)

abbrev newest_id : List RoomRow → Option ℤ
newest_id [] = none
newest_id (r ∷ _) = some r.id

abbrev memory : Driver (List RoomRow)
memory = record {
  select = λ statement bound db. (value (select_rows bound db), db);
  change = λ statement bound db. change_rows bound db;
  last_insert_id = λ table db. (value (newest_id db), db);
  begin = λ db. (value tt, db);
  commit = λ db. (value tt, db);
  rollback = λ begun db. begun;
  mktime = λ t. pos 0;
  now = pos 0;
}

insert_row-value :
    (taken : List RoomRow) (r : RoomRow) (n : ℕ) (db db' : List RoomRow)
    → insert_row taken r db ≡ (value n, db')
    → (taken ≡ []) × (db' ≡ r ∷ db)
insert_row-value [] r n db db' h = (refl, cc)
insert_row-value (t ∷ l) r n db db' h = cc

KeepsRooms-memory : KeepsRooms memory (λ db. db) same
KeepsRooms-memory = record {
  same_self = λ name. (eq_iff name name).1 refl;
  selects_by_name = λ name db. refl;
  selects_time = λ id db. refl;
  inserts = λ name creator_id n db db' h.
      let r = new_row name creator_id db in
      let (free, e) = insert_row-value (keep (λ r. same r.name name) db) r n db db' h in
      (
        free,
        (
          r.id,
          noon,
          e,
          ap (λ d. (value (newest_id d), d)) e ∙ ap (λ d. (value (some r.id), d)) (sym e),
        ),
      );
  begins = λ db. (db, refl, refl);
  commits = λ db db' h. cc;
}

mysql_rooms-StoresRooms_example : StoresRooms (mysql_rooms memory)
mysql_rooms-StoresRooms_example = mysql_rooms-StoresRooms memory (λ db. db) same KeepsRooms-memory

abbrev repositories : Repositories (Backend (List RoomRow))
repositories = mysql_repositories memory

-- No room is in the database.
abbrev before : World (Backend (List RoomRow))
before = record {
  session = world.session;
  manager = world.manager;
  rooms = rooms;
  store = record { db = []; returned = 0; replenished = 0 };
  sent = [];
}

abbrev den : Room
den = record { id = pos 1; name = "den"; creator_id = pos 7; created_at = pos 0 }

abbrev searched : Backend (List RoomRow)
searched = record { db = []; returned = 1; replenished = 0 }

abbrev added : Backend (List RoomRow)
added = record { db = new_row "den" (pos 7) [] ∷ []; returned = 2; replenished = 0 }

den-free : repositories.rooms.find_by_room_name "den" before.store ≡ (some none, searched)
unfolding mysql_rooms find_room_by_name look_up_room found_room ◌>>=◌ ◌>>◌ lift pure recover
    pair_with give_back close
den-free = refl

den-added :
    repositories.rooms.add_room (record default_room { name = "den"; creator_id = pos 7 }) searched
    ≡ (some (true, den), added)
unfolding mysql_rooms add_room add_room_block stored_room read_room_time commit_room_if first_time
    found_at ◌>>=◌ ◌>>◌ lift update pure try_or commit recover pair_with give_back close
den-added = rw ((int_beq_iff (pos 1) (pos 1)).1 refl) refl

-- alice makes a room and bob joins it.
create-join_example :
    let w' =
      (handle_room_operation repositories 2 join "den"
        (handle_room_operation repositories 1 create "den" before).1).1 in
    (place w'.rooms (pos 7) ≡ some ("den", 1)) × (place w'.rooms (pos 8) ≡ some ("den", 2))
create-join_example =
    create-join repositories before 1 (pos 7) "alice" refl refl refl "den" den searched added
      den-free den-added 2 (pos 8) "bob" refl refl refl
      (λ h. ground (arith, h, int_beq_iff (pos 8) (pos 7)))
      (mysql_rooms-StoresRooms memory (λ db. db) same KeepsRooms-memory) IsPlaced-rooms
