-- ===== src/Data/Transactions/Outcomes.antt =====
-- The methods of server/src/data/MySQL*Repository.cpp around a transaction, for any block of statements: what a
-- method answers, what it leaves in the database, and what becomes of its connection.
use cpp_chat_server.Prelude.{
  suc, ◌≡◌, refl, Bool, true, false, not, Option, none, some, if◌then◌else◌,
}
use cpp_chat_server.Data.Driver.{
  Driver, Outcome, lift, ◌>>=◌, ◌>>◌, value, raises, soci_error, no_data, connection_error,
  system_error, other_category, std_exception, Sql, Scope, Backend, with_connection, recover,
  give_back, pair_with, transaction, close,
}

-- Whether a block leaves a connection that cannot be used again.
abbrev pub is_broken : {A : Type 0} → Outcome A → Bool
is_broken (raises (soci_error connection_error)) = true
is_broken (raises (soci_error system_error)) = true
is_broken (raises std_exception) = true
is_broken _ = false

-- What a method answers after a block, with the object that it was passed, and `none` for an exception that
-- leaves the method.
abbrev pub answer_after : {A U : Type 0} → A → U → Outcome A → Option (A × U)
answer_after fallback object (value a) = some (a, object)
answer_after fallback object (raises (soci_error (other_category n))) = none
answer_after fallback object (raises _) = some (fallback, object)

answer_after-recover :
    {A U : Type 0} (fallback : A) (object : U) (r : Outcome A)
    → pair_with (recover fallback r).0 object ≡ answer_after fallback object r
unfolding recover pair_with
answer_after-recover fallback object (value a) = refl
answer_after-recover fallback object (raises (soci_error no_data)) = refl
answer_after-recover fallback object (raises (soci_error connection_error)) = refl
answer_after-recover fallback object (raises (soci_error system_error)) = refl
answer_after-recover fallback object (raises (soci_error (other_category n))) = refl
answer_after-recover fallback object (raises std_exception) = refl

is_broken-recover :
    {A : Type 0} (fallback : A) (r : Outcome A) → (recover fallback r).1 ≡ not (is_broken r)
unfolding recover
is_broken-recover fallback (value a) = refl
is_broken-recover fallback (raises (soci_error no_data)) = refl
is_broken-recover fallback (raises (soci_error connection_error)) = refl
is_broken-recover fallback (raises (soci_error system_error)) = refl
is_broken-recover fallback (raises (soci_error (other_category n))) = refl
is_broken-recover fallback (raises std_exception) = refl

module _ {Db : Type 0} where
  give_back-broken :
      (broken : Bool) (db : Db) (b : Backend Db)
      → give_back (not broken) db b ≡ record {
        db = db;
        returned = if broken then b.returned else suc b.returned;
        replenished = if broken then suc b.replenished else b.replenished;
      }
  unfolding give_back
  give_back-broken true db b = refl
  give_back-broken false db b = refl

  closed-object :
      {U : Type 0} (broken : Bool) (sc : Scope Db U) (db : Db)
      → (if broken then sc else record sc { db = db }).object ≡ sc.object
  closed-object true sc db = refl
  closed-object false sc db = refl

  closed-db :
      {U : Type 0} (broken : Bool) (sc : Scope Db U) (db : Db)
      → (if broken then sc else record sc { db = db }).db ≡ (if broken then sc.db else db)
  closed-db true sc db = refl
  closed-db false sc db = refl

  -- A method of a repository whose transaction begins, whatever its block of statements does and
  -- whichever exception ends it: the database is what the block left if it has committed, and
  -- otherwise what the rollback makes of it; the connection is given back to the pool, once, or,
  -- after a connection error, a system error or an exception that is not SOCI's, one new
  -- connection is asked for in its place; the method answers the value of the block, or its
  -- fallback after an exception, except for a SOCI error of another category than no data,
  -- connection and system, which leaves the method.
  pub with_connection-settles :
      {A U : Type 0} (driver : Driver Db) (fallback : A) (object : U) (body : Sql Db U A)
      (b : Backend Db) (begun : Db)
      → driver.begin b.db ≡ (value tt, begun)
      → let (r, sc) = body (record { db = begun; committed = false; object = object }) in
        with_connection fallback object (transaction driver body) b ≡ (
          answer_after fallback sc.object r,
          record {
            db = if sc.committed then sc.db else driver.rollback begun sc.db;
            returned = if is_broken r then b.returned else suc b.returned;
            replenished = if is_broken r then suc b.replenished else b.replenished;
          },
        )
  unfolding with_connection transaction close lift ◌>>=◌ ◌>>◌
  with_connection-settles driver fallback object body b begun began =
      let (r, sc) = body (record { db = begun; committed = false; object = object }) in
      rw
        (
          began,
          closed-object sc.committed sc (driver.rollback begun sc.db),
          closed-db sc.committed sc (driver.rollback begun sc.db),
          answer_after-recover fallback sc.object r,
          is_broken-recover fallback r,
          give_back-broken (is_broken r)
              (if sc.committed then sc.db else driver.rollback begun sc.db) b,
        )
        refl
