-- ===== src/Data/UserTable/Stores.antt =====
-- server/src/data/MySQLUserRepository.cpp over a database that keeps the table `users`: what a look-up finds
-- after an addUser or an updateUser that answered true.
use cpp_chat_server.Prelude.{
  ◌≡◌, refl, sym, ap, ◌∙◌, String, Bool, true, some, List, ◌∷◌, arith, int_eq, int_beq_iff,
}
use cpp_chat_server.Domain.{User}
use cpp_chat_server.Data.Driver.{
  Driver, Backend, pure, lift, ◌>>=◌, recover, pair_with, transaction,
}
use cpp_chat_server.Data.Driver.Inversion.{
  transaction-value, kept-scope, with_connection-value, with_connection_only-value,
}
use cpp_chat_server.AuthService.Accounts.{StoresUsers}
use cpp_chat_server.Data.UserTable.{
  mysql_users, find_user_by_username, found_user, update_user, update_user_block, add_user,
  add_user_block,
}
use cpp_chat_server.Data.UserTable.Rows.{UserRow, named, rewritten, named-rewritten, KeepsUsers}
use cpp_chat_server.Data.UserTable.Blocks.{user_of, updated-block, add_user_block-Added}

module _ {Db : Type 0} (driver : Driver Db) (rows : Db → List UserRow)
    (same : String → String → Bool) (keeps : KeepsUsers driver rows same) where
  -- A look-up by name gives the first row with it.
  find-named :
      (name : String) (b : Backend Db) (r : UserRow) (rest : List UserRow)
      → named same name (rows b.db) ≡ r ∷ rest
      → (find_user_by_username driver name b).0 ≡ some (some (user_of driver r))
  unfolding find_user_by_username ◌>>=◌ lift pure recover pair_with found_user
  find-named name b r rest e = rw (keeps.selects_by_name name b.db, e) refl

  -- The name of a row that stands first.
  named-first :
      (name : String) (r : UserRow) (rest l : List UserRow)
      → l ≡ r ∷ rest
      → r.username ≡ name
      → named same name l ≡ r ∷ named same name rest
  named-first name r rest l e n = rw (e, n, keeps.same_self name) refl

  added :
      (u u' : User) (b b' : Backend Db)
      → add_user driver u b ≡ (some (true, u'), b')
      → ((find_user_by_username driver u.username b').0 ≡ some (some u'))
        × (u'.username ≡ u.username)
        × (u'.hashed_password ≡ u.hashed_password)
        × (u'.salt ≡ u.salt)
  unfolding add_user
  added u u' b b' h =
      let (sc, e, o, d) =
        with_connection-value u u' (transaction driver (add_user_block driver u)) b b' h in
      let (begun, s, _, body, k) = transaction-value driver (add_user_block driver u) _ sc e in
      let (r, rest, f, object, n, p, q, committed) =
        add_user_block-Added driver rows same keeps u _ s refl body in
      let same_scope = kept-scope driver begun s sc committed k in
      let u'_is : u' ≡ user_of driver r = sym o ∙ ap (λ x. x.object) same_scope ∙ object in
      (
        find-named u.username b' r (named same u.username rest) (
              named-first u.username r rest (rows b'.db)
                (ap rows (d ∙ ap (λ x. x.db) same_scope) ∙ f) n)
            ∙ ap (λ x. some (some x)) (sym u'_is),
        ap (λ x. x.username) u'_is ∙ n,
        ap (λ x. x.hashed_password) u'_is ∙ p,
        ap (λ x. x.salt) u'_is ∙ q,
      )

  -- What a look-up finds of a row that was rewritten.
  user_of-rewritten :
      (u : User) (r : UserRow)
      → r.id ≡ u.id
      → ((user_of driver (rewritten u r)).username ≡ u.username)
        × ((user_of driver (rewritten u r)).hashed_password ≡ u.hashed_password)
        × ((user_of driver (rewritten u r)).salt ≡ u.salt)
  user_of-rewritten u r e = ground (arith, int_beq_iff r.id u.id)

  updated :
      (u : User) (b b' : Backend Db)
      → update_user driver u b ≡ (some true, b')
      → (u' : User) × ((find_user_by_username driver u.username b').0 ≡ some (some u'))
        × (u'.username ≡ u.username)
        × (u'.hashed_password ≡ u.hashed_password)
        × (u'.salt ≡ u.salt)
  unfolding update_user
  updated u b b' h =
      let (sc, e, d) =
        with_connection_only-value (transaction driver (update_user_block driver u)) b b' h in
      let (begun, s, began, body, k) =
        transaction-value driver (update_user_block driver u) _ sc e in
      let (n, db, change, affected, kept, committed) =
        updated-block driver rows same keeps u _ s body in
      let (table, some_row, alone) = keeps.updates u n begun db change in
      let (r, rest, found, same_id) =
        named-rewritten same u (rows begun) (keeps.same_self u.username) (some_row affected)
          alone in
      let same_scope = kept-scope driver begun s sc committed k in
      let (name, hash, salt) = user_of-rewritten u r same_id in
      (
        user_of driver (rewritten u r),
        find-named u.username b' (rewritten u r) rest (
            ap (named same u.username) (ap rows (d ∙ ap (λ x. x.db) same_scope) ∙ kept ∙ table)
            ∙ found),
        name,
        hash,
        salt,
      )

  -- Over a database that keeps the table of users, whose look-ups do not fail, and whose INSERT
  -- and UPDATE throw where a name is taken, the MySQL user repository is what the services rely
  -- on: after an addUser that answered true the user is found under their name as stored, with the
  -- new id and time; after an updateUser that answered true a user is found under the name, with
  -- the new password and salt.
  pub mysql_users-StoresUsers : StoresUsers (mysql_users driver)
  unfolding mysql_users
  mysql_users-StoresUsers = record { added = added; updated = updated }
