-- ===== src/AuthService/Accounts.antt =====
-- handleRegister and handleChangePassword of server/src/service/AuthService.cpp, each followed by a
-- login.
use cpp_chat_server.Prelude.{
  ℕ, String, ◌≡◌, ◌≢◌, true, none, some, List, [], ◌∷◌, ◌++◌, arith, string_eq, eq_iff, nat_eq,
  nat_beq_iff,
}
use cpp_chat_server.Domain.{User, default_user}
use cpp_chat_server.Repository.{Repositories, IUserRepository}
use cpp_chat_server.World.{World, Env}
use cpp_chat_server.Crypto.{hash_password, hex}
use cpp_chat_server.AuthService.{
  handle_login, handle_register, handle_change_password, registered, password_changed,
}
use cpp_chat_server.AuthService.Login.{accepts}

-- What the services rely on: a user that was added is found under their name, as they were stored, and
-- adding sets the identifier and the time and nothing else; a user that was updated is found under their
-- name, with the password and the salt that were stored.
pub record StoresUsers {Store : Type 0} (users : IUserRepository Store) : Type 0 where
  pub added :
      (u u' : User) (st st' : Store)
      → users.add_user u st ≡ (some (true, u'), st')
      → ((users.find_by_username u.username st').0 ≡ some (some u'))
        × (u'.username ≡ u.username)
        × (u'.hashed_password ≡ u.hashed_password)
        × (u'.salt ≡ u.salt)
  pub updated :
      (u : User) (st st' : Store)
      → users.update_user u st ≡ (some true, st')
      → (u' : User) × ((users.find_by_username u.username st').0 ≡ some (some u'))
        × (u'.username ≡ u.username)
        × (u'.hashed_password ≡ u.hashed_password)
        × (u'.salt ≡ u.salt)

-- The user that a registration stores.
abbrev pub new_user : Env → String → String → List ℕ → User
new_user env username password bytes = record default_user {
  username = username;
  hashed_password = hash_password env password (hex bytes);
  salt = hex bytes;
}

module _ {Store : Type 0} (env : Env) (repos : Repositories Store) (w : World Store) (s : ℕ)
    (laws : StoresUsers repos.users) where
  -- With a repository that finds an added user under their name: a registration of a free name
  -- that has random bytes and that the repository takes is confirmed, and after it the same name
  -- and password authenticate any session, under that name.
  pub register-login :
      (t : ℕ) (name password : String) (bytes : List ℕ) (u : User) (st st' : Store)
      → repos.users.find_by_username name w.store ≡ (some none, st)
      → env.rand_bytes 16 ≡ some bytes
      → repos.users.add_user (new_user env name password bytes) st ≡ (some (true, u), st')
      → let w' = (handle_register env repos s name password w).1 in
        (w'.sent ≡ w.sent ++ (s, registered name) ∷ [])
        × (((handle_login env repos t name password w').1.session t).authenticated ≡ true)
        × (((handle_login env repos t name password w').1.session t).username ≡ some name)
  unfolding handle_register handle_login
  register-login t name password bytes u st st' free random add = ground (
    arith,
    laws.added (new_user env name password bytes) u st st' add,
    nat_beq_iff t t,
    eq_iff (hash_password env password (hex bytes)) (hash_password env password (hex bytes)),
  )

  -- With a repository that finds an updated user as stored: for an authenticated user who gives
  -- the right old password and a new one, neither of them empty and not the same, where random
  -- bytes are there and the repository takes the update, the change is confirmed, and after it the
  -- new password authenticates any session.
  pub change_password-login :
      (t : ℕ) (user : User) (old new : String) (bytes : List ℕ) (st st' : Store)
      → (w.session s).authenticated ≡ true
      → (w.session s).username ≡ some user.username
      → repos.users.find_by_username user.username w.store ≡ (some (some user), st)
      → accepts env (some user) old ≡ true
      → old ≢ ""
      → new ≢ ""
      → old ≢ new
      → env.rand_bytes 16 ≡ some bytes
      → repos.users.update_user
          (record user { salt = hex bytes; hashed_password = hash_password env new (hex bytes) })
          st
        ≡ (some true, st')
      → let w' = (handle_change_password env repos s old new w).1 in
        (w'.sent ≡ w.sent ++ (s, password_changed) ∷ [])
        × (((handle_login env repos t user.username new w').1.session t).authenticated ≡ true)
  unfolding handle_change_password handle_login
  change_password-login t user old new bytes st st' a n f good o1 o2 o3 random upd =
      let (stored, found, same_name, same_hash, same_salt) =
        laws.updated
          (record user { salt = hex bytes; hashed_password = hash_password env new (hex bytes) }) st
          st' upd in
      ground (
        arith,
        found,
        same_name,
        same_hash,
        same_salt,
        nat_beq_iff t t,
        eq_iff old "",
        eq_iff new "",
        eq_iff old new,
        eq_iff (hash_password env new (hex bytes)) (hash_password env new (hex bytes)),
      )
