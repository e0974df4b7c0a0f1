-- ===== src/Data/RoomTable.antt =====
-- server/src/data/MySQLRoomRepository.cpp
pub mod Rows
pub mod Stores
use cpp_chat_server.Prelude.{
  ℤ, String, Bool, true, false, Option, none, some, List, [], ◌∷◌, map, if◌then◌else◌, is_positive,
}
use cpp_chat_server.Domain.{Room, default_room, TimePoint, unset}
use cpp_chat_server.Repository.{Query, IRoomRepository}
use cpp_chat_server.Data.Driver.{
  Driver, Cell, number, Value, integer, text, Sql, pure, lift, try_or, update, ◌>>=◌, ◌>>◌, commit,
  transaction, Backend, with_connection, with_connection_only,
}
use cpp_chat_server.Data.Times.{integer_of, text_of, integer_or, text_or, found_at, listed_at}
use cpp_chat_server.Data.UserTable.{changed_rows}

module _ {Db : Type 0} (driver : Driver Db) where
  -- `sql.got_data() && id_ind == soci::i_ok`, and the room of the row. Columns but `id` that are null
  -- leave their variables alone.
  unfoldable pub found_room : List (List Cell) → Option Room
  unfolding found_at
  found_room ((number id ∷ name ∷ creator_id ∷ created_at ∷ _) ∷ _) = some (record {
    id = id;
    name = text_of name;
    creator_id = integer_of creator_id;
    created_at = found_at driver created_at;
  })
  found_room _ = none

  -- one round of `while (st.fetch())`, whose variables keep what the round before left where a
  -- column is null
  listed_room : Room → List Cell → Room
  unfolding listed_at
  listed_room before (id ∷ name ∷ creator_id ∷ created_at ∷ _) = record {
    id = integer_or before.id id;
    name = text_or before.name name;
    creator_id = integer_or before.creator_id creator_id;
    created_at = listed_at driver created_at;
  }
  listed_room before _ = record before { created_at = driver.now }

  -- the loop
  listed_rooms : Room → List (List Cell) → List Room
  unfolding listed_room
  listed_rooms before [] = []
  listed_rooms before (row ∷ rows) =
      let room = listed_room before row in room ∷ listed_rooms room rows

  -- The three look-ups of one room, which differ in the statement and in what they bind to it.
  unfoldable pub look_up_room : String → Value → Query (Backend Db) (Option Room)
  unfolding with_connection_only found_room transaction
  look_up_room statement bound = with_connection_only none (
      transaction driver
        do rows ← lift (driver.select statement (bound ∷ [])); pure (found_room rows))

  -- The id is bound to the name.
  unfoldable pub find_room_by_id : ℤ → Query (Backend Db) (Option Room)
  unfolding look_up_room
  find_room_by_id id =
      look_up_room "SELECT id, name, creator_id, created_at FROM rooms WHERE name = :name"
        (integer id)

  unfoldable pub find_room_by_name : String → Query (Backend Db) (Option Room)
  unfolding look_up_room
  find_room_by_name name =
      look_up_room "SELECT id, name, creator_id, created_at FROM rooms WHERE name = :name"
        (text name)

  unfoldable pub find_room_by_creator : ℤ → Query (Backend Db) (Option Room)
  unfolding look_up_room
  find_room_by_creator creator_id =
      look_up_room
        "SELECT id, name, creator_id, created_at FROM rooms WHERE creator_id = :creator_id"
        (integer creator_id)

  unfoldable pub get_all_rooms : Query (Backend Db) (List Room)
  unfolding with_connection_only listed_rooms
  get_all_rooms = with_connection_only [] do
    rows ← lift (driver.select "SELECT id, name, creator_id, created_at FROM rooms" [])
    pure (listed_rooms default_room rows)

  update_room_block : Room → Sql Db (Unit {0}) Bool
  unfolding commit
  update_room_block room = do
    rows ← lift (
        driver.change "UPDATE rooms SET name = :name WHERE id = :id"
          (text room.name ∷ integer room.id ∷ []))
    commit driver
    pure (changed_rows rows)

  -- An id that is not positive is refused before a connection is taken.
  unfoldable pub update_room : Room → Query (Backend Db) Bool
  unfolding with_connection_only transaction update_room_block
  update_room room b =
      if is_positive room.id
      then with_connection_only false (transaction driver (update_room_block room)) b
      else (some false, b)

  -- the time of the row that was just added
  unfoldable pub first_time : List (List Cell) → TimePoint
  unfolding found_at
  first_time ((created_at ∷ _) ∷ _) = found_at driver created_at
  first_time _ = driver.now

  -- The inner `try`, behind which the transaction commits.
  unfoldable pub read_room_time : ℤ → Sql Db Room Bool
  unfolding first_time
  read_room_time new_id = do
    rows ← lift (driver.select "SELECT created_at FROM rooms WHERE id = :id" (integer new_id ∷ []))
    update λ r. record r { created_at = first_time rows }
    pure true

  unfoldable pub commit_room_if : Bool → Sql Db Room Bool
  unfolding commit
  commit_room_if true = do commit driver; pure true
  commit_room_if false = pure false

  unfoldable pub stored_room : Option ℤ → Sql Db Room Bool
  unfolding read_room_time commit_room_if
  stored_room none = pure false
  stored_room (some new_id) = do
    update λ r. record r { id = new_id }
    read ← try_or false (read_room_time new_id)
    commit_room_if read

  unfoldable pub add_room_block : Room → Sql Db Room Bool
  unfolding stored_room
  add_room_block room = do
    lift (
        driver.change "INSERT INTO rooms (name, creator_id) VALUES (:name, :creator_id)"
          (text room.name ∷ integer room.creator_id ∷ []))
    new_id ← lift (driver.last_insert_id "rooms")
    stored_room new_id

  unfoldable pub add_room : Room → Query (Backend Db) (Bool × Room)
  unfolding with_connection transaction add_room_block
  add_room room = with_connection false room (transaction driver (add_room_block room))

  unfoldable pub remove_room : ℤ → Query (Backend Db) Bool
  unfolding with_connection_only transaction commit
  remove_room id = with_connection_only false (
      transaction driver do
        lift (driver.change "DELETE FROM rooms WHERE id = :id" (integer id ∷ []))
        commit driver
        pure true)

  unfoldable pub mysql_rooms : IRoomRepository (Backend Db)
  mysql_rooms = record {
    find_by_room_id = find_room_by_id;
    find_by_room_name = find_room_by_name;
    find_by_creator_id = find_room_by_creator;
    get_all_rooms = get_all_rooms;
    update_room = update_room;
    add_room = add_room;
    remove_room = remove_room;
  }
