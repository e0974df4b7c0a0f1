-- ===== src/Tests/Tables.antt =====
-- A database that keeps the table `users` as a list of rows, the newest first.
use cpp_chat_server.Prelude.{
  ℤ, pos, ℕ, suc, ◌≡◌, ◌≢◌, ◌<◌, refl, sym, ap, ◌∙◌, String, Bool, Option, none, some, List, [],
  ◌∷◌, map, arith, length, ◌==◌, int_eq, string_eq, eq_iff,
}
use cpp_chat_server.Domain.{default_user}
use cpp_chat_server.Data.Driver.{
  Driver, Tm, Cell, Value, integer, text, Outcome, value, raises, std_exception,
}
use cpp_chat_server.Client.Words.{is_space}
use cpp_chat_server.Data.Conversions.{scan_time}
use cpp_chat_server.Data.UserTable.{mysql_users}
use cpp_chat_server.Data.UserTable.Rows.{
  UserRow, cells, created_cell, named, with_id, others, rewritten, KeepsUsers,
}
use cpp_chat_server.Data.UserTable.Stores.{mysql_users-StoresUsers}
use cpp_chat_server.AuthService.Accounts.{StoresUsers}

abbrev same : String → String → Bool
same a b = a == b

abbrev noon : Tm
noon = record {
  year = pos 125;
  month = pos 8;
  day = pos 3;
  hour = pos 12;
  minute = pos 0;
  second = pos 0;
}

abbrev select_rows : List Value → List UserRow → List (List Cell)
select_rows (text name ∷ []) db = map cells (named same name db)
select_rows (integer id ∷ []) db = map created_cell (with_id id db)
select_rows _ db = []

-- A change, unless some row is in the way.
abbrev unless_taken : List UserRow → ℕ → List UserRow → List UserRow → Outcome ℕ × List UserRow
unless_taken [] n db' db = (value n, db')
unless_taken (_ ∷ _) n db' db = (raises std_exception, db)

abbrev row_of : String → String → String → List UserRow → UserRow
row_of username hashed_password salt db = record {
  id = pos (suc (length db));
  username = username;
  hashed_password = hashed_password;
  salt = salt;
  created_at = some noon;
}

abbrev change_rows : List Value → List UserRow → Outcome ℕ × List UserRow
change_rows (text username ∷ text hashed_password ∷ text salt ∷ []) db =
    unless_taken (named same username db) 1 (row_of username hashed_password salt db ∷ db) db
change_rows (text username ∷ text hashed_password ∷ text salt ∷ integer id ∷ []) db =
    unless_taken (named same username (others id db)) (length (with_id id db))
      (map
        (rewritten (record default_user {
          id = id;
          username = username;
          hashed_password = hashed_password;
          salt = salt;
        }))
        db)
      db
change_rows _ db = (value 0, db)

abbrev newest_id : List UserRow → Option ℤ
newest_id [] = none
newest_id (r ∷ _) = some r.id

abbrev memory : Driver (List UserRow)
memory = record {
  select = λ statement bound db. (value (select_rows bound db), db);
  change = λ statement bound db. change_rows bound db;
  last_insert_id = λ table db. (value (newest_id db), db);
  begin = λ db. (value tt, db);
  commit = λ db. (value tt, db);
  rollback = λ begun db. begun;
  mktime = λ t. pos 0;
  now = pos 0;
}

unless_taken-value :
    (taken : List UserRow) (m n : ℕ) (changed db db' : List UserRow)
    → unless_taken taken m changed db ≡ (value n, db')
    → (taken ≡ []) × (m ≡ n) × (db' ≡ changed)
unless_taken-value [] m n changed db db' h = (refl, cc, cc)
unless_taken-value (r ∷ l) m n changed db db' h = cc

some_of_length : (l : List UserRow) (n : ℕ) → length l ≡ n → 0 < n → l ≢ []
some_of_length [] n h p = ground arith
some_of_length (r ∷ l) n h p = cc

KeepsUsers-memory : KeepsUsers memory (λ db. db) same
KeepsUsers-memory = record {
  same_self = λ name. (eq_iff name name).1 refl;
  selects_by_name = λ name db. refl;
  selects_created_at = λ id db. refl;
  inserts = λ username hashed_password salt n db db' h.
      let r = row_of username hashed_password salt db in
      let (free, _, e) = unless_taken-value (named same username db) 1 n (r ∷ db) db db' h in
      (
        free,
        (
          r.id,
          noon,
          e,
          ap (λ d. (value (newest_id d), d)) e ∙ ap (λ d. (value (some r.id), d)) (sym e),
        ),
      );
  updates = λ user n db db' h.
      let (free, m, e) =
        unless_taken-value (named same user.username (others user.id db))
          (length (with_id user.id db)) n (map (rewritten user) db) db db' h in
      (e, some_of_length (with_id user.id db) n m, free);
  begins = λ db db' h. cc;
  commits = λ db db' h. cc;
}

mysql_users-StoresUsers_example : StoresUsers (mysql_users memory)
mysql_users-StoresUsers_example = mysql_users-StoresUsers memory (λ db. db) same KeepsUsers-memory

-- A time as MySQL writes it.
scan_time_test :
    scan_time "2025-09-03 15:08:11"
    ≡ some (record {
      year = pos 125;
      month = pos 8;
      day = pos 3;
      hour = pos 15;
      minute = pos 8;
      second = pos 11;
    })
unfolding scan_time is_space
scan_time_test = refl
