-- ===== src/AuthService.antt =====
-- server/src/service/AuthService.cpp
pub mod Login
pub mod Unchecked
pub mod Accounts
use cpp_chat_server.Prelude.{
  pos, ℕ, String, true, false, none, some, [], ◌∷◌, ◌==◌, ◌||◌, not, if◌then◌else◌, concat,
  to_string, string_eq,
}
use cpp_chat_server.Protocol.{
  Envelope, envelope, error, login_response, registration_response, change_password_response,
  change_username_response,
}
use cpp_chat_server.Domain.{User, default_user}
use cpp_chat_server.Exec.{Exec, ◌>>=◌, ◌>>◌}
use cpp_chat_server.Repository.{Repositories}
use cpp_chat_server.World.{World, Env, call, send, is_authenticated, get_username}
use cpp_chat_server.SessionManager.{register_authenticated_session, update_username}
use cpp_chat_server.Crypto.{hash_password, generate_salt}

-- An error response with the default code.
abbrev pub refuse : String → Envelope
refuse = error (pos 0)

abbrev pub welcome : User → Envelope
welcome user = envelope (
    login_response true (concat ("Login successful. Welcome, " ∷ user.username ∷ "!" ∷ []))
      (to_string user.id))

abbrev pub registered : String → Envelope
registered name = envelope (
    registration_response true
      (concat ("Registration successful. You can now log in, " ∷ name ∷ "!" ∷ [])))

abbrev pub not_registered : Envelope
not_registered =
    envelope (registration_response false "Registration failed due to a server-side error.")

abbrev pub password_changed : Envelope
password_changed = envelope (change_password_response true "Password changed successfully.")

-- `new_username` of the response stays unset.
abbrev pub username_changed : String → Envelope
username_changed name = envelope (
    change_username_response true (concat ("Username changed successfully to " ∷ name ∷ "." ∷ []))
      "")

module _ {Store : Type 0} (env : Env) (repos : Repositories Store) where
  open repos use {users}

  unfoldable pub handle_login : ℕ → String → String → Exec (World Store) (Unit {0})
  unfolding call send register_authenticated_session
  handle_login s username password = do
    found ← call (users.find_by_username username)
    elim found [
      | none ↦ send s (refuse "User not found.")
      | some user ↦
          if hash_password env password user.salt == user.hashed_password
          then (do register_authenticated_session s user.id user.username; send s (welcome user))
          else send s (refuse "Password incorrect.")
    ]

  store_new_user : ℕ → String → String → Exec (World Store) (Unit {0})
  unfolding call send generate_salt
  store_new_user s username password = do
    salt ← generate_salt env
    (added, user) ← call (
        users.add_user (record default_user {
          username = username;
          hashed_password = hash_password env password salt;
          salt = salt;
        }))
    send s (if added then registered user.username else not_registered)

  unfoldable pub handle_register : ℕ → String → String → Exec (World Store) (Unit {0})
  unfolding call send store_new_user
  handle_register s username password = do
    found ← call (users.find_by_username username)
    elim found [
      | some _ ↦ send s (refuse "Username already taken.")
      | none ↦ store_new_user s username password
    ]

  store_password : ℕ → User → String → Exec (World Store) (Unit {0})
  unfolding call send generate_salt
  store_password s user new_password = do
    salt ← generate_salt env
    call (
        users.update_user
          (record user { salt = salt; hashed_password = hash_password env new_password salt }))
    send s password_changed

  change_password : ℕ → User → String → String → Exec (World Store) (Unit {0})
  unfolding send store_password
  change_password s user old_password new_password =
      if not (hash_password env old_password user.salt == user.hashed_password)
      then send s (refuse "Old password is incorrect.")
      else if old_password == "" || new_password == ""
      then send s (refuse "Old password and new password must be provided.")
      else if old_password == new_password
      then send s (refuse "New password must be different from old password.")
      else store_password s user new_password

  look_up_account : ℕ → (User → Exec (World Store) (Unit {0})) → Exec (World Store) (Unit {0})
  unfolding call send get_username
  look_up_account s k = do
    username ← get_username s
    found ← call (users.find_by_username username)
    elim found [ none ↦ send s (refuse "User not found.") | some user ↦ k user ]

  -- The start that both changes share: the user of the session, as the database has them.
  with_account : ℕ → (User → Exec (World Store) (Unit {0})) → Exec (World Store) (Unit {0})
  unfolding send is_authenticated look_up_account
  with_account s k = do
    authenticated ← is_authenticated s
    if authenticated then look_up_account s k else send s (refuse "Not authenticated.")

  unfoldable pub handle_change_password : ℕ → String → String → Exec (World Store) (Unit {0})
  unfolding with_account change_password
  handle_change_password s old_password new_password =
      with_account s λ user. change_password s user old_password new_password

  unfoldable pub change_username : ℕ → User → String → Exec (World Store) (Unit {0})
  unfolding call send update_username
  change_username s user new_username =
      if new_username == ""
      then send s (refuse "New username must be provided.")
      else if new_username == user.username
      then send s (refuse "New username must be different from current username.")
      else do
        call (users.update_user (record user { username = new_username }))
        update_username s new_username
        send s (username_changed new_username)

  unfoldable pub handle_change_username : ℕ → String → Exec (World Store) (Unit {0})
  unfolding with_account
  handle_change_username s new_username = with_account s λ user. do
    taken ← call (users.find_by_username new_username)
    elim taken [
      | some _ ↦ send s (refuse "Username already taken.")
      | none ↦ change_username s user new_username
    ]
