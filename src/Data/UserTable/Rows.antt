-- ===== src/Data/UserTable/Rows.antt =====
-- The table `users` of schema.sql, and what the statements of server/src/data/MySQLUserRepository.cpp rely on.
use cpp_chat_server.Prelude.{
  ℤ, ℕ, ◌<◌, ◌≡◌, ◌≢◌, inl, inr, refl, String, Bool, true, Option, none, some, List, [], ◌∷◌, map,
  arith, if◌then◌else◌, int_eq, ◌==◌, int_beq_iff, Bool-cases,
}
use cpp_chat_server.Domain.{User}
use cpp_chat_server.Data.Driver.{Driver, Tm, Cell, null, number, string, time, integer, text, value}

pub record UserRow : Type 0 where
  pub id : ℤ
  pub username : String
  pub hashed_password : String
  pub salt : String
  -- the column may be null
  pub created_at : Option Tm

abbrev pub time_cell : Option Tm → Cell
time_cell none = null
time_cell (some t) = time t

-- The columns in the order of the SELECT statements.
abbrev pub cells : UserRow → List Cell
cells r =
    number r.id
    ∷ string r.username
    ∷ string r.hashed_password
    ∷ string r.salt
    ∷ time_cell r.created_at
    ∷ []

abbrev pub created_cell : UserRow → List Cell
created_cell r = time_cell r.created_at ∷ []

-- The rows with a name, as the collation of the column compares names.
abbrev pub named : (String → String → Bool) → String → List UserRow → List UserRow
named same name [] = []
named same name (r ∷ l) =
    let rest = named same name l in if same r.username name then r ∷ rest else rest

abbrev pub with_id : ℤ → List UserRow → List UserRow
with_id id [] = []
with_id id (r ∷ l) = let rest = with_id id l in if r.id == id then r ∷ rest else rest

-- A row after an UPDATE of the row with the id of `user`.
abbrev pub rewritten : User → UserRow → UserRow
rewritten user r =
    if r.id == user.id
    then record r {
      username = user.username;
      hashed_password = user.hashed_password;
      salt = user.salt;
    }
    else r

-- The rows with another id.
abbrev pub others : ℤ → List UserRow → List UserRow
others id [] = []
others id (r ∷ l) = let rest = others id l in if r.id == id then rest else r ∷ rest

-- What the program relies on of the database while no statement fails for want of a connection. `rows` is
-- what a database holds, the newest row first, and `same` how the collation compares two names.
pub record KeepsUsers {Db : Type 0} (driver : Driver Db) (rows : Db → List UserRow)
    (same : String → String → Bool) : Type 0 where
  pub same_self : (name : String) → same name name ≡ true
  pub selects_by_name :
      (name : String) (db : Db)
      → driver.select
          "SELECT id, username, hashed_password, salt, created_at FROM users WHERE username = :username"
          (text name ∷ [])
          db
        ≡ (value (map cells (named same name (rows db))), db)
  pub selects_created_at :
      (id : ℤ) (db : Db)
      → driver.select "SELECT created_at FROM users WHERE id = :id" (integer id ∷ []) db
        ≡ (value (map created_cell (with_id id (rows db))), db)
  -- An INSERT that does not throw adds a row with an id and the time; it throws if the name is taken.
  pub inserts :
      (username hashed_password salt : String) (n : ℕ) (db db' : Db)
      → driver.change
          "INSERT INTO users (username, hashed_password, salt) VALUES (:username, :hashed_password, :salt)"
          (text username ∷ text hashed_password ∷ text salt ∷ [])
          db
        ≡ (value n, db')
      → (named same username (rows db) ≡ [])
        × ((id : ℤ) × (t : Tm) × (rows db'
              ≡ record {
                id = id;
                username = username;
                hashed_password = hashed_password;
                salt = salt;
                created_at = some t;
              }
                ∷ rows db)
            × (driver.last_insert_id "users" db' ≡ (value (some id), db')))
  -- An UPDATE that does not throw rewrites the row with the id, and none is affected if there
  -- is none; it throws if the name is that of another row.
  pub updates :
      (user : User) (n : ℕ) (db db' : Db)
      → driver.change
          "UPDATE users SET username = :username, hashed_password = :hashed_password, salt = :salt WHERE id = :id"
          (text user.username ∷ text user.hashed_password ∷ text user.salt ∷ integer user.id ∷ [])
          db
        ≡ (value n, db')
      → (rows db' ≡ map (rewritten user) (rows db))
        × (0 < n → with_id user.id (rows db) ≢ [])
        × (named same user.username (others user.id (rows db)) ≡ [])
  pub begins : (db db' : Db) → driver.begin db ≡ (value tt, db') → rows db' ≡ rows db
  pub commits : (db db' : Db) → driver.commit db ≡ (value tt, db') → rows db' ≡ rows db

-- What a look-up by the new name finds after an UPDATE.
pub named-rewritten :
    (same : String → String → Bool) (user : User) (l : List UserRow)
    → same user.username user.username ≡ true
    → with_id user.id l ≢ []
    → named same user.username (others user.id l) ≡ []
    → (r : UserRow) × (rest : List UserRow) × (named same user.username (map (rewritten user) l)
        ≡ rewritten user r ∷ rest)
      × (r.id ≡ user.id)
named-rewritten same user [] s some_row alone = absurd (some_row refl)
named-rewritten same user (r ∷ l) s some_row alone = elim (Bool-cases (r.id == user.id)) [
  | inl e ↦ (
    r,
    named same user.username (map (rewritten user) l),
    ground arith,
    (int_beq_iff r.id user.id).0 e,
  )
  | inr e ↦
      let (q, rest, f, i) = named-rewritten same user l s (ground arith) (ground arith) in
      (q, rest, ground arith, i)
]
