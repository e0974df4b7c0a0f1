-- ===== src/Data/Transactions/Adds.antt =====
-- addUser, addRoom and addMessage of server/src/data/MySQL*Repository.cpp, which commit in different
-- places.
use cpp_chat_server.Prelude.{ℤ, ◌≡◌, Bool, true, false, Option, none, some}
use cpp_chat_server.Domain.{User, Room, Message}
use cpp_chat_server.Data.Driver.{Driver, value, Backend}
use cpp_chat_server.Data.UserTable.{add_user, add_user_block, stored_user, read_created_at}
use cpp_chat_server.Data.RoomTable.{
  add_room, add_room_block, stored_room, read_room_time, commit_room_if,
}
use cpp_chat_server.Data.MessageTable.{
  add_message, add_message_block, stored_message, read_message_time, commit_message_if,
}
use cpp_chat_server.Data.Transactions.{
  IsSettled, is_added, IsSafe, IsQuiet, then-IsSafe, also-IsSafe, try_or-IsSafe, no_answer-IsSafe,
  commit-IsSafe, lift-IsQuiet, update-IsQuiet, pure-IsQuiet, then-IsQuiet, also-IsQuiet,
  try_or-IsQuiet, settle_safe,
}

module _ {Db : Type 0} (driver : Driver Db) where
  stored_user-IsSafe : (new_id : Option ℤ) → IsSafe driver (stored_user driver new_id)
  unfolding stored_user read_created_at
  stored_user-IsSafe none = no_answer-IsSafe driver
  stored_user-IsSafe (some new_id) = also-IsSafe driver (update-IsQuiet driver _) (
      try_or-IsSafe driver (
        then-IsSafe driver (lift-IsQuiet driver _)
          (λ rows. also-IsSafe driver (update-IsQuiet driver _) (commit-IsSafe driver))))

  add_user_block-IsSafe : (user : User) → IsSafe driver (add_user_block driver user)
  unfolding add_user_block
  add_user_block-IsSafe user =
      also-IsSafe driver (lift-IsQuiet driver _)
        (then-IsSafe driver (lift-IsQuiet driver _) (λ new_id. stored_user-IsSafe new_id))

  commit_room_if-IsSafe : (read : Bool) → IsSafe driver (commit_room_if driver read)
  unfolding commit_room_if
  commit_room_if-IsSafe true = commit-IsSafe driver
  commit_room_if-IsSafe false = no_answer-IsSafe driver

  read_room_time-IsQuiet : (new_id : ℤ) → IsQuiet driver (read_room_time driver new_id)
  unfolding read_room_time
  read_room_time-IsQuiet new_id =
      then-IsQuiet driver (lift-IsQuiet driver _)
        (λ rows. also-IsQuiet driver (update-IsQuiet driver _) (pure-IsQuiet driver true))

  stored_room-IsSafe : (new_id : Option ℤ) → IsSafe driver (stored_room driver new_id)
  unfolding stored_room
  stored_room-IsSafe none = no_answer-IsSafe driver
  stored_room-IsSafe (some new_id) = also-IsSafe driver (update-IsQuiet driver _) (
      then-IsSafe driver (try_or-IsQuiet driver false (read_room_time-IsQuiet new_id))
        (λ read. commit_room_if-IsSafe read))

  add_room_block-IsSafe : (room : Room) → IsSafe driver (add_room_block driver room)
  unfolding add_room_block
  add_room_block-IsSafe room =
      also-IsSafe driver (lift-IsQuiet driver _)
        (then-IsSafe driver (lift-IsQuiet driver _) (λ new_id. stored_room-IsSafe new_id))

  commit_message_if-IsSafe : (read : Bool) → IsSafe driver (commit_message_if driver read)
  unfolding commit_message_if
  commit_message_if-IsSafe true = commit-IsSafe driver
  commit_message_if-IsSafe false = no_answer-IsSafe driver

  read_message_time-IsQuiet : (new_id : ℤ) → IsQuiet driver (read_message_time driver new_id)
  unfolding read_message_time
  read_message_time-IsQuiet new_id =
      then-IsQuiet driver (lift-IsQuiet driver _)
        (λ rows. also-IsQuiet driver (update-IsQuiet driver _) (pure-IsQuiet driver true))

  stored_message-IsSafe : (new_id : Option ℤ) → IsSafe driver (stored_message driver new_id)
  unfolding stored_message
  stored_message-IsSafe none = no_answer-IsSafe driver
  stored_message-IsSafe (some new_id) = also-IsSafe driver (update-IsQuiet driver _) (
      then-IsSafe driver (try_or-IsQuiet driver false (read_message_time-IsQuiet new_id))
        (λ read. commit_message_if-IsSafe read))

  add_message_block-IsSafe : (message : Message) → IsSafe driver (add_message_block driver message)
  unfolding add_message_block
  add_message_block-IsSafe message =
      also-IsSafe driver (lift-IsQuiet driver _)
        (then-IsSafe driver (lift-IsQuiet driver _) (λ new_id. stored_message-IsSafe new_id))

  add_user-IsSettled :
      (user : User) (b : Backend Db) (begun : Db)
      → driver.begin b.db ≡ (value tt, begun)
      → let after = add_user driver user b in IsSettled driver begun (is_added after.0) after.1.db
  unfolding add_user
  add_user-IsSettled user b begun began =
      settle_safe driver user (add_user_block driver user) b begun (add_user_block-IsSafe user)
        began

  add_room-IsSettled :
      (room : Room) (b : Backend Db) (begun : Db)
      → driver.begin b.db ≡ (value tt, begun)
      → let after = add_room driver room b in IsSettled driver begun (is_added after.0) after.1.db
  unfolding add_room
  add_room-IsSettled room b begun began =
      settle_safe driver room (add_room_block driver room) b begun (add_room_block-IsSafe room)
        began

  add_message-IsSettled :
      (message : Message) (b : Backend Db) (begun : Db)
      → driver.begin b.db ≡ (value tt, begun)
      → let after = add_message driver message b in
        IsSettled driver begun (is_added after.0) after.1.db
  unfolding add_message
  add_message-IsSettled message b begun began =
      settle_safe driver message (add_message_block driver message) b begun
        (add_message_block-IsSafe message) began

  -- Whatever statements answer or throw, once the transaction has begun: where addUser, addRoom or
  -- addMessage answers true, the database is what a commit that did not throw left; where it
  -- answers false or throws, the database is what a rollback to the begin of the transaction left.
  pub adds-IsSettled :
      (user : User) (room : Room) (message : Message) (b : Backend Db) (begun : Db)
      → driver.begin b.db ≡ (value tt, begun)
      → let with_user = add_user driver user b in
        let with_room = add_room driver room b in
        let with_message = add_message driver message b in
        IsSettled driver begun (is_added with_user.0) with_user.1.db
        × IsSettled driver begun (is_added with_room.0) with_room.1.db
        × IsSettled driver begun (is_added with_message.0) with_message.1.db
  adds-IsSettled user room message b begun began = (
    add_user-IsSettled user b begun began,
    add_room-IsSettled room b begun began,
    add_message-IsSettled message b begun began,
  )
