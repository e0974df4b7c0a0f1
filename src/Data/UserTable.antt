-- ===== src/Data/UserTable.antt =====
-- server/src/data/MySQLUserRepository.cpp
pub mod Rows
pub mod Blocks
pub mod Stores
pub mod Reads
use cpp_chat_server.Prelude.{
  ℤ, ℕ, zero, suc, String, Bool, true, false, Option, none, some, List, [], ◌∷◌, map, if◌then◌else◌,
}
use cpp_chat_server.Domain.{User, default_user, unset}
use cpp_chat_server.Repository.{Query, IUserRepository}
use cpp_chat_server.Data.Driver.{
  Driver, Cell, number, integer, text, Sql, pure, lift, try_or, update, ◌>>=◌, ◌>>◌, commit,
  transaction, Backend, with_connection, with_connection_only,
}
use cpp_chat_server.Data.Times.{
  integer_of, text_of, integer_or, text_or, found_at, listed_at, converted,
}

-- A text, or a number, may be null only where the table allows it; `unset` or "" then stands for the
-- variable that SOCI leaves alone.
abbrev pub changed_rows : ℕ → Bool
changed_rows zero = false
changed_rows (suc n) = true

module _ {Db : Type 0} (driver : Driver Db) where
  -- `sql.got_data() && id_ind == soci::i_ok`, and the user of the row
  unfoldable pub found_user : List (List Cell) → Option User
  unfolding found_at
  found_user ((number id ∷ username ∷ hashed_password ∷ salt ∷ created_at ∷ _) ∷ _) = some (record {
    id = id;
    username = text_of username;
    hashed_password = text_of hashed_password;
    salt = text_of salt;
    created_at = found_at driver created_at;
  })
  found_user _ = none

  -- one round of `while (st.fetch())`, whose variables keep what the round before left where a
  -- column is null
  listed_user : User → List Cell → User
  unfolding listed_at
  listed_user before (id ∷ username ∷ hashed_password ∷ salt ∷ created_at ∷ _) = record {
    id = integer_or before.id id;
    username = text_or before.username username;
    hashed_password = text_or before.hashed_password hashed_password;
    salt = text_or before.salt salt;
    created_at = listed_at driver created_at;
  }
  listed_user before _ = record before { created_at = driver.now }

  -- the loop
  listed_users : User → List (List Cell) → List User
  unfolding listed_user
  listed_users before [] = []
  listed_users before (row ∷ rows) =
      let user = listed_user before row in user ∷ listed_users user rows

  -- The only look-up that runs without a transaction.
  unfoldable pub find_user_by_username : String → Query (Backend Db) (Option User)
  unfolding with_connection_only found_user
  find_user_by_username username = with_connection_only none do
    rows ← lift (
        driver.select
          "SELECT id, username, hashed_password, salt, created_at FROM users WHERE username = :username"
          (text username ∷ []))
    pure (found_user rows)

  unfoldable pub find_user_by_id : ℤ → Query (Backend Db) (Option User)
  unfolding with_connection_only found_user transaction
  find_user_by_id id = with_connection_only none (
      transaction driver do
        rows ← lift (
            driver.select
              "SELECT id, username, hashed_password, salt, created_at FROM users WHERE id = :id"
              (integer id ∷ []))
        pure (found_user rows))

  unfoldable pub get_all_users : Query (Backend Db) (List User)
  unfolding with_connection_only listed_users
  get_all_users = with_connection_only [] do
    rows ←
        lift (driver.select "SELECT id, username, hashed_password, salt, created_at FROM users" [])
    pure (listed_users default_user rows)

  unfoldable pub update_user_block : User → Sql Db (Unit {0}) Bool
  unfolding commit
  update_user_block user = do
    rows ← lift (
        driver.change
          "UPDATE users SET username = :username, hashed_password = :hashed_password, salt = :salt WHERE id = :id"
          (text user.username ∷ text user.hashed_password ∷ text user.salt ∷ integer user.id ∷ []))
    if changed_rows rows then (do commit driver; pure true) else pure false

  unfoldable pub update_user : User → Query (Backend Db) Bool
  unfolding with_connection_only transaction update_user_block
  update_user user = with_connection_only false (transaction driver (update_user_block user))

  -- The inner `try`, which the commit is a part of.
  unfoldable pub read_created_at : ℤ → Sql Db User Bool
  unfolding commit converted
  read_created_at new_id = do
    rows ← lift (driver.select "SELECT created_at FROM users WHERE id = :id" (integer new_id ∷ []))
    update λ u. record u { created_at = converted driver rows }
    commit driver
    pure true

  unfoldable pub stored_user : Option ℤ → Sql Db User Bool
  unfolding read_created_at
  stored_user none = pure false
  stored_user (some new_id) = do
    update λ u. record u { id = new_id }
    try_or false (read_created_at new_id)

  unfoldable pub add_user_block : User → Sql Db User Bool
  unfolding stored_user
  add_user_block user = do
    lift (
        driver.change
          "INSERT INTO users (username, hashed_password, salt) VALUES (:username, :hashed_password, :salt)"
          (text user.username ∷ text user.hashed_password ∷ text user.salt ∷ []))
    new_id ← lift (driver.last_insert_id "users")
    stored_user new_id

  unfoldable pub add_user : User → Query (Backend Db) (Bool × User)
  unfolding with_connection transaction add_user_block
  add_user user = with_connection false user (transaction driver (add_user_block user))

  unfoldable pub remove_user : ℤ → Query (Backend Db) Bool
  unfolding with_connection_only transaction commit
  remove_user id = with_connection_only false (
      transaction driver do
        lift (driver.change "DELETE FROM users WHERE id = :id" (integer id ∷ []))
        commit driver
        pure true)

  pub mysql_users : IUserRepository (Backend Db)
  mysql_users = record {
    find_by_username = find_user_by_username;
    find_by_user_id = find_user_by_id;
    get_all_users = get_all_users;
    update_user = update_user;
    add_user = add_user;
    remove_user = remove_user;
  }
