-- ===== src/Data/Driver.antt =====
-- What the methods of server/src/data/MySQL*Repository.cpp share: the statements that they give to
-- SOCI, the transaction object, the wrapper of a connection, and the catch clauses. SOCI and MySQL are
-- the record Driver.
pub mod Inversion
use cpp_chat_server.Prelude.{
  ℤ, ℕ, suc, String, Bool, true, false, Option, none, some, List, if◌then◌else◌,
}
use cpp_chat_server.Domain.{TimePoint}
use cpp_chat_server.Repository.{Query}

-- soci_error::error_category, by the ones that the catch clauses tell apart.
pub data Category : Type 0 where
  no_data connection_error system_error : Category
  other_category : ℕ → Category

pub data Failure : Type 0 where
  soci_error : Category → Failure
  -- any other std::exception
  std_exception : Failure

pub data Outcome (A : Type 0) : Type 0 where
  value : A → Outcome A
  raises : Failure → Outcome A

-- What `use` binds to a statement, in order.
pub data Value : Type 0 where
  integer : ℤ → Value
  text : String → Value

-- std::tm, of which the program only takes the time_t.
pub record Tm : Type 0 where
  pub year : ℤ
  pub month : ℤ
  pub day : ℤ
  pub hour : ℤ
  pub minute : ℤ
  pub second : ℤ

-- A column of a row; `null` is every indicator but `i_ok`.
pub data Cell : Type 0 where
  null : Cell
  number : ℤ → Cell
  string : String → Cell
  time : Tm → Cell

pub record Driver (Db : Type 0) : Type 0 where
  pub select : String → List Value → Db → Outcome (List (List Cell)) × Db
  -- with the number of affected rows
  pub change : String → List Value → Db → Outcome ℕ × Db
  pub last_insert_id : String → Db → Outcome (Option ℤ) × Db
  pub begin : Db → Outcome (Unit {0}) × Db
  pub commit : Db → Outcome (Unit {0}) × Db
  -- the database after a rollback, from what it was at the begin and what it is
  pub rollback : Db → Db → Db
  pub mktime : Tm → ℤ
  pub now : TimePoint

-- What a method works on: the database, whether its transaction has committed, and the object that
-- was passed to it by reference.
pub record Scope (Db U : Type 0) : Type 0 where
  pub db : Db
  pub committed : Bool
  pub object : U

abbrev pub Sql : Type 0 → Type 0 → Type 0 → Type 0
Sql Db U A = Scope Db U → Outcome A × Scope Db U

module _ {Db U A : Type 0} where
  unfoldable pub pure : A → Sql Db U A
  pure a sc = (value a, sc)

  unfoldable pub lift : (Db → Outcome A × Db) → Sql Db U A
  lift f sc = let (r, db) = f sc.db in (r, record sc { db = db })

  -- `try { … } catch (const std::exception& e) { return …; }`
  abbrev pub otherwise : A → Outcome A × Scope Db U → Outcome A × Scope Db U
  otherwise a (value b, sc) = (value b, sc)
  otherwise a (raises e, sc) = (value a, sc)

  unfoldable pub try_or : A → Sql Db U A → Sql Db U A
  try_or a m sc = otherwise a (m sc)

unfoldable pub update : {Db U : Type 0} → (U → U) → Sql Db U (Unit {0})
update f sc = (value tt, record sc { object = f sc.object })

module _ {Db U A B : Type 0} where
  abbrev pub and_then : (A → Sql Db U B) → Outcome A × Scope Db U → Outcome B × Scope Db U
  and_then f (value a, sc) = f a sc
  and_then f (raises e, sc) = (raises e, sc)

  infixl 5 ◌>>=◌ ◌>>◌
  unfoldable pub ◌>>=◌ : Sql Db U A → (A → Sql Db U B) → Sql Db U B
  ◌>>=◌ m f sc = and_then f (m sc)

  unfoldable pub ◌>>◌ : Sql Db U A → Sql Db U B → Sql Db U B
  ◌>>◌ m n sc = and_then (λ _. n) (m sc)

module _ {Db U : Type 0} (driver : Driver Db) where
  -- tr.commit()
  unfoldable pub commit : Sql Db U (Unit {0})
  commit = do lift driver.commit; λ sc. (value tt, record sc { committed = true })

  -- The destructor of `soci::transaction`, which rolls back what was not committed.
  unfoldable pub close : {A : Type 0} → Db → Outcome A × Scope Db U → Outcome A × Scope Db U
  close begun (r, sc) =
      (r, if sc.committed then sc else record sc { db = driver.rollback begun sc.db })

  -- `soci::transaction tr(sql);` and the rest of the block
  unfoldable pub transaction : {A : Type 0} → Sql Db U A → Sql Db U A
  unfolding close
  transaction body = do
    lift driver.begin
    λ sc. close sc.db (body (record sc { committed = false }))

-- What the repositories keep: the database, and how often a connection went back to the pool and how
-- often a new one was asked for in its place.
pub record Backend (Db : Type 0) : Type 0 where
  pub db : Db
  pub returned : ℕ
  pub replenished : ℕ

-- The catch clauses that end every method: what it answers, `none` for `throw;`, and whether the
-- connection is still marked as valid.
unfoldable pub recover : {A : Type 0} → A → Outcome A → Option A × Bool
recover fallback (value a) = (some a, true)
recover fallback (raises (soci_error no_data)) = (some fallback, true)
recover fallback (raises (soci_error connection_error)) = (some fallback, false)
recover fallback (raises (soci_error system_error)) = (some fallback, false)
recover fallback (raises (soci_error (other_category n))) = (none, true)
recover fallback (raises std_exception) = (some fallback, false)

unfoldable pub pair_with : {A U : Type 0} → Option A → U → Option (A × U)
pair_with none u = none
pair_with (some a) u = some (a, u)

answer_of : {A : Type 0} → Option (A × Unit {0}) → Option A
answer_of none = none
answer_of (some (a, _)) = some a

module _ {Db : Type 0} where
  -- The destructor of ConnectionWrapper.
  unfoldable pub give_back : Bool → Db → Backend Db → Backend Db
  give_back true db b = record { db = db; returned = suc b.returned; replenished = b.replenished }
  give_back false db b = record { db = db; returned = b.returned; replenished = suc b.replenished }

  -- A method: its block, run with a connection of the pool on an object, and its catch clauses.
  unfoldable pub with_connection : {A U : Type 0} → A → U → Sql Db U A → Query (Backend Db) (A × U)
  unfolding recover give_back pair_with
  with_connection fallback u body b =
      let (r, sc) = body (record { db = b.db; committed = false; object = u }) in
      let (answer, is_valid) = recover fallback r in
      (pair_with answer sc.object, give_back is_valid sc.db b)

  -- The same for a method that is passed no object.
  unfoldable pub with_connection_only :
      {A : Type 0} → A → Sql Db (Unit {0}) A → Query (Backend Db) A
  unfolding with_connection answer_of
  with_connection_only fallback body b =
      let (r, b') = with_connection fallback tt body b in (answer_of r, b')
