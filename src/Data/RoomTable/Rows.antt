-- ===== src/Data/RoomTable/Rows.antt =====
-- The table `rooms` of schema.sql, and what the statements of server/src/data/MySQLRoomRepository.cpp rely on.
use cpp_chat_server.Prelude.{
  ℤ, ℕ, ◌≡◌, String, Bool, true, some, Option, List, [], ◌∷◌, map, if◌then◌else◌, int_eq, ◌==◌,
}
use cpp_chat_server.Data.Driver.{Driver, Tm, Cell, number, string, integer, text, value}
use cpp_chat_server.Data.UserTable.Rows.{time_cell}

pub record RoomRow : Type 0 where
  pub id : ℤ
  pub name : String
  pub creator_id : ℤ
  -- the column may be null
  pub created_at : Option Tm

-- The columns in the order of the SELECT statements.
abbrev pub room_cells : RoomRow → List Cell
room_cells r = number r.id ∷ string r.name ∷ number r.creator_id ∷ time_cell r.created_at ∷ []

abbrev pub room_time : RoomRow → List Cell
room_time r = time_cell r.created_at ∷ []

abbrev pub keep : (RoomRow → Bool) → List RoomRow → List RoomRow
keep f [] = []
keep f (r ∷ l) = let rest = keep f l in if f r then r ∷ rest else rest

-- What the program relies on of the database while no statement fails for want of a connection. `rows` is
-- what a database holds, the newest row first, and `same` how the collation compares two names.
pub record KeepsRooms {Db : Type 0} (driver : Driver Db) (rows : Db → List RoomRow)
    (same : String → String → Bool) : Type 0 where
  pub same_self : (name : String) → same name name ≡ true
  pub selects_by_name :
      (name : String) (db : Db)
      → driver.select "SELECT id, name, creator_id, created_at FROM rooms WHERE name = :name"
          (text name ∷ [])
          db
        ≡ (value (map room_cells (keep (λ r. same r.name name) (rows db))), db)
  pub selects_time :
      (id : ℤ) (db : Db)
      → driver.select "SELECT created_at FROM rooms WHERE id = :id" (integer id ∷ []) db
        ≡ (value (map room_time (keep (λ r. r.id == id) (rows db))), db)
  -- An INSERT that does not throw adds a row with an id and the time; it throws if the name is taken.
  pub inserts :
      (name : String) (creator_id : ℤ) (n : ℕ) (db db' : Db)
      → driver.change "INSERT INTO rooms (name, creator_id) VALUES (:name, :creator_id)"
          (text name ∷ integer creator_id ∷ [])
          db
        ≡ (value n, db')
      → (keep (λ r. same r.name name) (rows db) ≡ [])
        × ((id : ℤ) × (t : Tm) × (rows db'
              ≡ record { id = id; name = name; creator_id = creator_id; created_at = some t }
                ∷ rows db)
            × (driver.last_insert_id "rooms" db' ≡ (value (some id), db')))
  -- A look-up begins a transaction of its own.
  pub begins :
      (db : Db) → (begun : Db) × (driver.begin db ≡ (value tt, begun)) × (rows begun ≡ rows db)
  pub commits : (db db' : Db) → driver.commit db ≡ (value tt, db') → rows db' ≡ rows db
