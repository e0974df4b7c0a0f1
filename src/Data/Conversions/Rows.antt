-- ===== src/Data/Conversions/Rows.antt =====
-- The conversion of a whole row in server/src/data/SociTypeConversion.h against the columns that
-- server/src/data/MySQLUserRepository.cpp binds one by one.
use cpp_chat_server.Prelude.{
  ◌≡◌, refl, String, true, Option, none, some, List, ◌∷◌, map, ◌==◌, if◌then◌else◌, string_eq,
}
use cpp_chat_server.Domain.{User}
use cpp_chat_server.Session.{is_some}
use cpp_chat_server.Data.Driver.{Driver, Tm}
use cpp_chat_server.Data.Times.{found_at}
use cpp_chat_server.Data.UserTable.{found_user}
use cpp_chat_server.Data.UserTable.Rows.{UserRow, cells, time_cell}
use cpp_chat_server.Data.Conversions.{Values, user_from_base, created_at_or_now}

abbrev column_of : UserRow → String → Option String
column_of r name =
    if name == "username"
    then some r.username
    else if name == "hashed_password"
    then some r.hashed_password
    else if name == "salt"
    then some r.salt
    else none

-- The same row as SOCI gives it to a conversion.
abbrev pub values_of : UserRow → Values
values_of r = record {
  get_int = λ name. if name == "id" then some r.id else none;
  get_long_long = λ name. if name == "id" then some r.id else none;
  get_string = column_of r;
  get_tm = λ name. if name == "created_at" then r.created_at else none;
  is_ok = λ name.
      some (if name == "created_at" then is_some r.created_at else is_some (column_of r name));
}

abbrev user_at : {Db : Type 0} → Driver Db → UserRow → User
user_at driver r = record {
  id = r.id;
  username = r.username;
  hashed_password = r.hashed_password;
  salt = r.salt;
  created_at = found_at driver (time_cell r.created_at);
}

converted_time :
    {Db : Type 0} (driver : Driver Db) (row : UserRow) (o : Option Tm) (u : User)
    → created_at_or_now driver
        (values_of (record row { created_at = o }))
        (λ t u. record u { created_at = t })
        u
      ≡ (true, record u { created_at = found_at driver (time_cell o) })
unfolding found_at created_at_or_now
converted_time driver row none u = refl
converted_time driver row (some t) u = refl

converted_row :
    {Db : Type 0} (driver : Driver Db) (r : UserRow) (u : User)
    → user_from_base driver (values_of r) u ≡ (true, user_at driver r)
unfolding user_from_base
converted_row driver r u = converted_time driver r r.created_at _

-- Both ways of reading a row of the table give the same user.
pub user_from_base-found_user :
    {Db : Type 0} (driver : Driver Db) (r : UserRow) (rest : List UserRow) (u : User)
    → (user : User) × (user_from_base driver (values_of r) u ≡ (true, user))
      × (found_user driver (map cells (r ∷ rest)) ≡ some user)
unfolding found_user found_at
user_from_base-found_user driver r rest u = (user_at driver r, converted_row driver r u, refl)
