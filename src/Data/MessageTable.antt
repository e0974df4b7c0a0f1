-- ===== src/Data/MessageTable.antt =====
-- server/src/data/MySQLMessageRepository.cpp
use cpp_chat_server.Prelude.{ℤ, String, Bool, true, false, Option, none, some, List, [], ◌∷◌}
use cpp_chat_server.Domain.{Message, default_message}
use cpp_chat_server.Repository.{Query, IMessageRepository}
use cpp_chat_server.Data.Driver.{
  Driver, Cell, number, Value, integer, text, Sql, pure, lift, try_or, update, ◌>>=◌, ◌>>◌, commit,
  transaction, Backend, with_connection, with_connection_only,
}
use cpp_chat_server.Data.Times.{
  integer_of, text_of, integer_or, text_or, found_at, listed_at, converted,
}

module _ {Db : Type 0} (driver : Driver Db) where
  -- `sql.got_data() && id_ind == soci::i_ok`, and the message of the row. Columns but `id` that are
  -- null leave their variables alone.
  pub found_message : List (List Cell) → Option Message
  unfolding found_at
  found_message ((number id ∷ room_id ∷ sender_id ∷ content ∷ created_at ∷ _) ∷ _) = some (record {
    id = id;
    room_id = integer_of room_id;
    sender_id = integer_of sender_id;
    content = text_of content;
    created_at = found_at driver created_at;
  })
  found_message _ = none

  -- one round of `while (st.fetch())`, whose variables keep what the round before left where a
  -- column is null
  listed_message : Message → List Cell → Message
  unfolding listed_at
  listed_message before (id ∷ room_id ∷ sender_id ∷ content ∷ created_at ∷ _) = record {
    id = integer_or before.id id;
    room_id = integer_or before.room_id room_id;
    sender_id = integer_or before.sender_id sender_id;
    content = text_or before.content content;
    created_at = listed_at driver created_at;
  }
  listed_message before _ = record before { created_at = driver.now }

  -- the loop
  listed_messages : Message → List (List Cell) → List Message
  unfolding listed_message
  listed_messages before [] = []
  listed_messages before (row ∷ rows) =
      let message = listed_message before row in message ∷ listed_messages message rows

  -- The inner `try`, behind which the transaction commits.
  unfoldable pub read_message_time : ℤ → Sql Db Message Bool
  unfolding converted
  read_message_time new_id = do
    rows ←
        lift (driver.select "SELECT created_at FROM messages WHERE id = :id" (integer new_id ∷ []))
    update λ m. record m { created_at = converted driver rows }
    pure true

  unfoldable pub commit_message_if : Bool → Sql Db Message Bool
  unfolding commit
  commit_message_if true = do commit driver; pure true
  commit_message_if false = pure false

  unfoldable pub stored_message : Option ℤ → Sql Db Message Bool
  unfolding read_message_time commit_message_if
  stored_message none = pure false
  stored_message (some new_id) = do
    update λ m. record m { id = new_id }
    read ← try_or false (read_message_time new_id)
    commit_message_if read

  unfoldable pub add_message_block : Message → Sql Db Message Bool
  unfolding stored_message
  add_message_block msg = do
    lift (
        driver.change
          "INSERT INTO messages (room_id, sender_id, content) VALUES (:room_id, :sender_id, :content)"
          (integer msg.room_id ∷ integer msg.sender_id ∷ text msg.content ∷ []))
    new_id ← lift (driver.last_insert_id "messages")
    stored_message new_id

  unfoldable pub add_message : Message → Query (Backend Db) (Bool × Message)
  unfolding with_connection transaction add_message_block
  add_message msg = with_connection false msg (transaction driver (add_message_block msg))

  unfoldable pub remove_message : ℤ → Query (Backend Db) Bool
  unfolding with_connection_only transaction commit
  remove_message id = with_connection_only false (
      transaction driver do
        lift (driver.change "DELETE FROM messages WHERE id = :id" (integer id ∷ []))
        commit driver
        pure true)

  unfoldable pub find_message_by_id : ℤ → Query (Backend Db) (Option Message)
  unfolding with_connection_only found_message transaction
  find_message_by_id id = with_connection_only none (
      transaction driver do
        rows ← lift (
            driver.select
              "SELECT id, room_id, sender_id, content, created_at FROM messages WHERE id = :id"
              (integer id ∷ []))
        pure (found_message rows))

  -- What the four walks over rows share: a statement, its values, and no transaction.
  list_messages : String → List Value → Query (Backend Db) (List Message)
  unfolding with_connection_only listed_messages
  list_messages statement bound =
      with_connection_only []
        do rows ← lift (driver.select statement bound); pure (listed_messages default_message rows)

  unfoldable pub find_by_sender : ℤ → Query (Backend Db) (List Message)
  unfolding list_messages
  find_by_sender sender_id =
      list_messages
        "SELECT id, room_id, sender_id, content, created_at FROM messages WHERE sender_id = :sender_id"
        (integer sender_id ∷ [])

  unfoldable pub find_by_room : ℤ → Query (Backend Db) (List Message)
  unfolding list_messages
  find_by_room room_id =
      list_messages
        "SELECT id, room_id, sender_id, content, created_at FROM messages WHERE room_id = :room_id ORDER BY created_at ASC"
        (integer room_id ∷ [])

  unfoldable pub find_by_content : String → Query (Backend Db) (List Message)
  unfolding list_messages
  find_by_content content =
      list_messages
        "SELECT id, room_id, sender_id, content, created_at FROM messages WHERE content LIKE CONCAT('%', :content, '%')"
        (text content ∷ [])

  unfoldable pub find_latest_by_room : ℤ → ℤ → Query (Backend Db) (List Message)
  unfolding list_messages
  find_latest_by_room room_id limit =
      list_messages
        "SELECT id, room_id, sender_id, content, created_at FROM messages WHERE room_id = :room_id ORDER BY created_at DESC LIMIT :limitValue"
        (integer room_id ∷ integer limit ∷ [])

  pub mysql_messages : IMessageRepository (Backend Db)
  mysql_messages = record {
    find_by_message_id = find_message_by_id;
    find_by_sender_id = find_by_sender;
    find_by_room_id = find_by_room;
    find_by_content = find_by_content;
    find_latest_by_room_id = find_latest_by_room;
    add_message = add_message;
    remove_message = remove_message;
  }
