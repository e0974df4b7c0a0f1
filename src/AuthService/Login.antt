-- ===== src/AuthService/Login.antt =====
-- handleLogin of server/src/service/AuthService.cpp.
use cpp_chat_server.Prelude.{
  ℕ, String, ◌≡◌, Bool, true, false, Option, none, some, [], ◌∷◌, ◌++◌, arith, ◌==◌, string_eq,
  int_eq, eq_iff, int_beq_iff, nat_eq, nat_beq_iff, Bool-cases, inl, inr,
}
use cpp_chat_server.Exec.{ok}
use cpp_chat_server.Protocol.{Envelope}
use cpp_chat_server.Domain.{User}
use cpp_chat_server.Repository.{Repositories}
use cpp_chat_server.World.{World, Env}
use cpp_chat_server.Map.{get-put}
use cpp_chat_server.SessionManager.{find_by_username, find_by_user_id}
use cpp_chat_server.Crypto.{hash_password}
use cpp_chat_server.AuthService.{handle_login, refuse, welcome}

-- Whether a password is that of the account found, if one was found.
abbrev pub accepts : Env → Option User → String → Bool
accepts env none password = false
accepts env (some user) password = hash_password env password user.salt == user.hashed_password

module _ {Store : Type 0} (env : Env) (repos : Repositories Store) (w : World Store) (s : ℕ) where
  -- A login on a session that is not authenticated, where the look-up of the name does not throw,
  -- authenticates it exactly if an account was found whose stored hash is that of the password
  -- with the stored salt. In every case the session is sent one envelope and nobody else any.
  pub login-authenticates :
      (name password : String) (found : Option User) (st : Store)
      → (w.session s).authenticated ≡ false
      → repos.users.find_by_username name w.store ≡ (some found, st)
      → let w' = (handle_login env repos s name password w).1 in
        ((w'.session s).authenticated ≡ accepts env found password)
        × ((e : Envelope) × (w'.sent ≡ w.sent ++ (s, e) ∷ []))
  unfolding handle_login
  login-authenticates name password none st a h =
      (ground (arith, nat_beq_iff s s), (refuse "User not found.", ground arith))
  login-authenticates name password (some user) st a h =
      elim (Bool-cases (accepts env (some user) password)) [
        | inl good ↦ (ground (arith, nat_beq_iff s s), (welcome user, ground arith))
        | inr bad ↦ (ground (arith, nat_beq_iff s s), (refuse "Password incorrect.", ground arith))
      ]

  -- A login with the right password of an account, where the look-up does not throw, makes the
  -- session be found under the account's name and under its id, with both stored in the session
  -- object, and sends it the welcome and nothing else to anyone.
  pub login-registers :
      (name password : String) (user : User) (st : Store)
      → repos.users.find_by_username name w.store ≡ (some (some user), st)
      → accepts env (some user) password ≡ true
      → let w' = (handle_login env repos s name password w).1 in
        ((find_by_username user.username w').0 ≡ ok (some s))
        × ((find_by_user_id user.id w').0 ≡ ok (some s))
        × ((w'.session s).user_id ≡ some user.id)
        × ((w'.session s).username ≡ some user.username)
        × (w'.sent ≡ w.sent ++ (s, welcome user) ∷ [])
  unfolding handle_login find_by_username find_by_user_id
  login-registers name password user st h good = ground (
    arith,
    nat_beq_iff s s,
    get-put w.manager.sessions_by_user_id user.id user.id s,
    get-put w.manager.sessions_by_username user.username user.username s,
    eq_iff user.username user.username,
    int_beq_iff user.id user.id,
  )

  -- A login with a wrong password, or for a name that has no account, where the look-up does not
  -- throw, changes nothing but the repository's state, and sends one envelope, to the session that
  -- asked.
  pub login-refuses :
      (name password : String) (found : Option User) (st : Store)
      → repos.users.find_by_username name w.store ≡ (some found, st)
      → accepts env found password ≡ false
      → (e : Envelope) × (handle_login env repos s name password w
          ≡ (ok tt, record w { store = st; sent = w.sent ++ (s, e) ∷ [] }))
  unfolding handle_login
  login-refuses name password none st h bad = (refuse "User not found.", ground arith)
  login-refuses name password (some user) st h bad = (refuse "Password incorrect.", ground arith)
