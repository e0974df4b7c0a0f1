-- ===== src/AuthService/Unchecked.antt =====
-- handleChangePassword and handleChangeUsername of server/src/service/AuthService.cpp, whatever the
-- repository answers to their update.
use cpp_chat_server.Prelude.{
  ℕ, String, ◌≡◌, ◌≢◌, Bool, true, none, some, List, [], ◌∷◌, ◌++◌, arith, string_eq, eq_iff,
  nat_eq, nat_beq_iff,
}
use cpp_chat_server.Exec.{ok}
use cpp_chat_server.Domain.{User}
use cpp_chat_server.Repository.{Repositories}
use cpp_chat_server.World.{World, Env}
use cpp_chat_server.Crypto.{hash_password, hex}
use cpp_chat_server.AuthService.{
  handle_change_password, handle_change_username, change_username, password_changed,
  username_changed,
}
use cpp_chat_server.AuthService.Login.{accepts}

module _ {Store : Type 0} (env : Env) (repos : Repositories Store) (w : World Store) (s : ℕ)
    (user : User) (a : (w.session s).authenticated ≡ true)
    (n : (w.session s).username ≡ some user.username) where
  -- A change of password by an authenticated user with an account, who gives the right old
  -- password and a new one, neither of them empty and not the same, with random bytes there, is
  -- reported as done whatever the repository answers to the update, also if it did not store it.
  -- Nothing else changes but the repository's state.
  pub change_password_unchecked :
      (old new : String) (bytes : List ℕ) (st st' : Store) (stored : Bool)
      → repos.users.find_by_username user.username w.store ≡ (some (some user), st)
      → accepts env (some user) old ≡ true
      → old ≢ ""
      → new ≢ ""
      → old ≢ new
      → env.rand_bytes 16 ≡ some bytes
      → repos.users.update_user
          (record user { salt = hex bytes; hashed_password = hash_password env new (hex bytes) })
          st
        ≡ (some stored, st')
      → handle_change_password env repos s old new w
        ≡ (ok tt, record w { store = st'; sent = w.sent ++ (s, password_changed) ∷ [] })
  unfolding handle_change_password
  change_password_unchecked old new bytes st st' stored f good o1 o2 o3 random upd =
      ground (arith, eq_iff old "", eq_iff new "", eq_iff old new)

  -- A change of name by an authenticated user with an account, to a name that has no account, is
  -- not empty and is not the same, is reported as done, and the session takes the new name,
  -- whatever the repository answers to the update, also if it did not store it.
  pub change_username_unchecked :
      (new : String) (st st₂ st₃ : Store) (stored : Bool)
      → repos.users.find_by_username user.username w.store ≡ (some (some user), st)
      → repos.users.find_by_username new st ≡ (some none, st₂)
      → new ≢ ""
      → new ≢ user.username
      → repos.users.update_user (record user { username = new }) st₂ ≡ (some stored, st₃)
      → let w' = (handle_change_username env repos s new w).1 in
        ((w'.session s).username ≡ some new)
        × (w'.sent ≡ w.sent ++ (s, username_changed new) ∷ [])
        × (w'.store ≡ st₃)
  unfolding handle_change_username change_username
  change_username_unchecked new st st₂ st₃ stored f free o1 o2 upd =
      ground (arith, eq_iff new "", eq_iff new user.username, nat_beq_iff s s)
