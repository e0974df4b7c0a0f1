-- ===== src/Data/UserTable/Reads.antt =====
-- findByUserId of server/src/data/MySQLUserRepository.cpp over a database that keeps the table `users`.
use cpp_chat_server.Prelude.{ℤ, suc, ◌≡◌, refl, ◌∙◌, Option, some, List, [], ◌∷◌, map}
use cpp_chat_server.Domain.{User}
use cpp_chat_server.RoomService.History.{ReadsUsers}
use cpp_chat_server.Data.Driver.{
  Driver, value, integer, Backend, pure, lift, ◌>>=◌, ◌>>◌, recover, give_back, pair_with, close,
}
use cpp_chat_server.Data.UserTable.{mysql_users, find_user_by_id, found_user}
use cpp_chat_server.Data.UserTable.Rows.{UserRow, cells, with_id}

-- What findByUserId relies on while no statement fails.
pub record AnswersIds {Db : Type 0} (driver : Driver Db) (rows : Db → List UserRow) : Type 0 where
  pub begins :
      (db : Db) → (begun : Db) × (driver.begin db ≡ (value tt, begun)) × (rows begun ≡ rows db)
  pub selects_by_id :
      (id : ℤ) (db : Db)
      → driver.select
          "SELECT id, username, hashed_password, salt, created_at FROM users WHERE id = :id"
          (integer id ∷ [])
          db
        ≡ (value (map cells (with_id id (rows db))), db)
  -- Its transaction never commits.
  pub rolls_back : (begun now : Db) → rows (driver.rollback begun now) ≡ rows begun

module _ {Db : Type 0} (driver : Driver Db) (rows : Db → List UserRow)
    (answers : AnswersIds driver rows) (table : List UserRow) where
  abbrev pub user_with_id : ℤ → Option User
  user_with_id id = found_user driver (map cells (with_id id table))

  read :
      (id : ℤ) (b : Backend Db)
      → rows b.db ≡ table
      → (b' : Backend Db) × (find_user_by_id driver id b ≡ (some (user_with_id id), b'))
        × (rows b'.db ≡ table)
  unfolding find_user_by_id ◌>>=◌ ◌>>◌ lift pure recover pair_with give_back close
  read id b h =
      let (begun, e, r) = answers.begins b.db in
      (
        record {
          db = driver.rollback begun begun;
          returned = suc b.returned;
          replenished = b.replenished;
        },
        rw (e, answers.selects_by_id id begun, r, h) refl,
        answers.rolls_back begun begun ∙ r ∙ h,
      )

  pub mysql_users-ReadsUsers : ReadsUsers (mysql_users driver) (λ b. rows b.db ≡ table) user_with_id
  unfolding mysql_users
  mysql_users-ReadsUsers = record { reads = read }
