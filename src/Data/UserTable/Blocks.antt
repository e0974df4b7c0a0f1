-- ===== src/Data/UserTable/Blocks.antt =====
-- The transactions of server/src/data/MySQLUserRepository.cpp over a database that keeps the table `users`: what
-- a block has done that answered true.
use cpp_chat_server.Prelude.{
  ℤ, ℕ, zero, suc, ◌<◌, ◌≡◌, refl, sym, ap, ◌∙◌, String, Bool, true, false, some, List, [], ◌∷◌,
  map, arith, if◌then◌else◌, int_eq, int_beq_iff,
}
use cpp_chat_server.Domain.{User, TimePoint}
use cpp_chat_server.Data.Driver.{
  Driver, Cell, Tm, value, Scope, pure, lift, update, ◌>>◌, commit, integer, text,
}
use cpp_chat_server.Data.Driver.Inversion.{
  bind-value, of_value, of_db, then-value, lift-value, update-value, try_or-value, committed-value,
}
use cpp_chat_server.Data.Times.{found_at, converted, from_time_t}
use cpp_chat_server.Data.UserTable.{
  update_user_block, add_user_block, stored_user, read_created_at, changed_rows,
}
use cpp_chat_server.Data.UserTable.Rows.{UserRow, time_cell, created_cell, with_id, KeepsUsers}

-- The user of a row.
abbrev pub user_of : {Db : Type 0} → Driver Db → UserRow → User
user_of driver r = record {
  id = r.id;
  username = r.username;
  hashed_password = r.hashed_password;
  salt = r.salt;
  created_at = found_at driver (time_cell r.created_at);
}

module _ {Db : Type 0} (driver : Driver Db) (rows : Db → List UserRow)
    (same : String → String → Bool) (keeps : KeepsUsers driver rows same) where
  -- The end of an UPDATE that affected some row.
  changed-value :
      (n : ℕ) (start sc : Scope Db (Unit {0}))
      → (if changed_rows n then (do commit driver; pure true) else pure false) start
        ≡ (value true, sc)
      → (0 < n) × (driver.commit start.db ≡ (value tt, sc.db)) × (sc.committed ≡ true)
  unfolding pure
  changed-value zero start sc h = cc
  changed-value (suc n) start sc h =
      let (c, _, k) = committed-value driver start sc h in (omega arith, c, k)

  -- The change of a row that a commit keeps.
  pub updated-block :
      (user : User) (start sc : Scope Db (Unit {0}))
      → update_user_block driver user start ≡ (value true, sc)
      → (n : ℕ) × (db : Db) × (driver.change
            "UPDATE users SET username = :username, hashed_password = :hashed_password, salt = :salt WHERE id = :id"
            (text user.username ∷ text user.hashed_password ∷ text user.salt ∷ integer user.id ∷ [])
            start.db
          ≡ (value n, db))
        × (0 < n)
        × (rows sc.db ≡ rows db)
        × (sc.committed ≡ true)
  unfolding update_user_block
  updated-block user start sc h =
      let (n, s, l, k) =
        bind-value (lift (driver.change _ _))
          (λ n. if changed_rows n then (do commit driver; pure true) else pure false) start true sc
          h in
      let (c, _, _) = lift-value (driver.change _ _) start n s l in
      let (pos, d, committed) = changed-value n s sc k in
      (n, s.db, c, pos, keeps.commits s.db sc.db d, committed)

  -- The time that the newest row is read with.
  converted-newest :
      (t : Tm) (r : UserRow) (rest : List UserRow)
      → r.created_at ≡ some t
      → converted driver (map created_cell (with_id r.id (r ∷ rest)))
        ≡ from_time_t (driver.mktime t)
  unfolding converted
  converted-newest t r rest c = ground (arith, int_beq_iff r.id r.id)

  module _ (t : Tm) (r : UserRow) (rest : List UserRow) (start : Scope Db User)
      (e : rows start.db ≡ r ∷ rest) (c : r.created_at ≡ some t) where
    converted-found :
        (found : List (List Cell))
        → found ≡ map created_cell (with_id r.id (rows start.db))
        → converted driver found ≡ from_time_t (driver.mktime t)
    converted-found found f = rw (f, e) (converted-newest t r rest c)

    -- The second half of addUser, on a table whose newest row has the id.
    read-value :
        (sc : Scope Db User)
        → read_created_at driver r.id start ≡ (value true, sc)
        → (rows sc.db ≡ r ∷ rest)
          × (sc.object ≡ record start.object { created_at = from_time_t (driver.mktime t) })
          × (sc.committed ≡ true)
    unfolding read_created_at
    read-value sc h =
        let (found, s, l, k) = bind-value (lift (driver.select _ _)) _ start true sc h in
        let (q, o, _) = lift-value (driver.select _ _) start found s l in
        let (u, s₂, up, fin) = then-value (update _) _ s true sc k in
        let (kept, o₂, committed) = committed-value driver s₂ sc fin in
        let same_result = sym (keeps.selects_created_at r.id start.db) ∙ q in
        let changed = update-value _ s u s₂ up in
        (
          keeps.commits s₂.db sc.db kept
              ∙ ap (λ x. rows x.db) changed
              ∙ ap rows (sym (of_db same_result))
              ∙ e,
          o₂
              ∙ ap (λ x. x.object) changed
              ∙ ap (λ (x : User). record x { created_at = converted driver found }) o
              ∙ ap (λ (x : TimePoint). record start.object { created_at = x })
                  (converted-found found (sym (of_value same_result))),
          committed,
        )

  -- The user that an INSERT makes, in the table that a commit has kept.
  abbrev pub Added : User → Scope Db User → Type 0
  Added user sc =
      (r : UserRow) × (rest : List UserRow) × (rows sc.db ≡ r ∷ rest)
      × (sc.object ≡ user_of driver r)
      × (r.username ≡ user.username)
      × (r.hashed_password ≡ user.hashed_password)
      × (r.salt ≡ user.salt)
      × (sc.committed ≡ true)

  stored-value :
      (user : User) (id : ℤ) (t : Tm) (start sc : Scope Db User) (rest : List UserRow)
      → start.object ≡ user
      → rows start.db
        ≡ record {
          id = id;
          username = user.username;
          hashed_password = user.hashed_password;
          salt = user.salt;
          created_at = some t;
        }
          ∷ rest
      → stored_user driver (some id) start ≡ (value true, sc)
      → Added user sc
  unfolding stored_user found_at
  stored-value user id t start sc rest o e h =
      let (u, s, up, k) = then-value (update _) _ start true sc h in
      let changed = update-value _ start u s up in
      let r : UserRow = record {
        id = id;
        username = user.username;
        hashed_password = user.hashed_password;
        salt = user.salt;
        created_at = some t;
      } in
      let (f, object, committed) =
        read-value t r rest s (ap (λ x. rows x.db) changed ∙ e) refl sc
          (try_or-value (read_created_at driver id) s sc k) in
      (
        r,
        rest,
        f,
        object
            ∙ ap (λ (x : User). record x { created_at = from_time_t (driver.mktime t) })
                (ap (λ x. x.object) changed)
            ∙ ap (λ (x : User). record x { id = id; created_at = from_time_t (driver.mktime t) }) o,
        refl,
        refl,
        refl,
        committed,
      )

  pub add_user_block-Added :
      (user : User) (start sc : Scope Db User)
      → start.object ≡ user
      → add_user_block driver user start ≡ (value true, sc)
      → Added user sc
  unfolding add_user_block
  add_user_block-Added user start sc o h =
      let (n, s, l, k) = then-value (lift (driver.change _ _)) _ start true sc h in
      let (change, o₁, _) = lift-value (driver.change _ _) start n s l in
      let (_, (id, t, table, last)) =
        keeps.inserts user.username user.hashed_password user.salt n start.db s.db change in
      let (new_id, s₂, l₂, fin) =
        bind-value (lift (driver.last_insert_id "users")) (stored_user driver) s true sc k in
      let (q, o₂, _) = lift-value (driver.last_insert_id "users") s new_id s₂ l₂ in
      let answer = sym last ∙ q in
      stored-value user id t s₂ sc (rows start.db) (o₂ ∙ o₁ ∙ o)
        (ap rows (sym (of_db answer)) ∙ table)
        (ap (λ i. stored_user driver i s₂) (of_value answer) ∙ fin)
