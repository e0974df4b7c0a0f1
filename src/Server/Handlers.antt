-- ===== src/Server/Handlers.antt =====
-- The sessions through each handler of the services and through onDisconnect of
-- server/src/core/Server.cpp: when they have a user, and the exceptions of Session::getUserId and
-- getUsername.
use cpp_chat_server.Prelude.{
  ℤ, ℕ, String, ◌≡◌, refl, Bool, true, false, List, [], ◌∷◌, arith, nat_eq, nat_beq_iff,
}
use cpp_chat_server.Protocol.{RoomOperation, join}
use cpp_chat_server.Exec.{Result, ok, err, user_id_not_set, bad_optional_access}
use cpp_chat_server.Domain.{User, Message}
use cpp_chat_server.Repository.{Repositories}
use cpp_chat_server.World.{World, Env}
use cpp_chat_server.Session.{IsIdentified}
use cpp_chat_server.SessionManager.Index.{AreIdentified}
use cpp_chat_server.AuthService.{
  handle_login, handle_register, handle_change_password, handle_change_username, change_username,
}
use cpp_chat_server.RoomService.{
  sender_name, handle_room_operation, handle_disconnect, handle_history_request, history_entries,
}
use cpp_chat_server.MessageService.{handle_public_message, handle_private_message}

-- The exceptions that Session::getUserId and getUsername throw of a session that has no user.
abbrev pub lacks_user : {A : Type 0} → Result A → Bool
lacks_user (ok _) = false
lacks_user (err user_id_not_set) = true
lacks_user (err bad_optional_access) = true
lacks_user (err _) = false

abbrev pub IsKnown : {A : Type 0} → Result A → Type 0
IsKnown r = lacks_user r ≡ false

-- The loop of handleHistoryRequest leaves the sessions alone.
entries-session :
    {Store : Type 0} (repos : Repositories Store) (name : String) (l : List Message)
    (w : World Store)
    → ((history_entries repos name l w).1.session ≡ w.session)
      × IsKnown (history_entries repos name l w).0
unfolding history_entries sender_name
entries-session repos name [] w = (refl, refl)
entries-session repos name (m ∷ l) w = grind (arith, entries-session repos name l)

-- The end of handleChangeUsername, for a session that is authenticated.
rename-at :
    {Store : Type 0} (env : Env) (repos : Repositories Store) (w : World Store) (s : ℕ)
    (user : User) (new : String) (t : ℕ)
    → IsIdentified (w.session s)
    → IsIdentified (w.session t)
    → (w.session s).authenticated ≡ true
    → IsIdentified ((change_username env repos s user new w).1.session t)
unfolding change_username
rename-at env repos w s user new t i j e = ground (arith, nat_beq_iff s t)

rename-IsKnown :
    {Store : Type 0} (env : Env) (repos : Repositories Store) (w : World Store) (s : ℕ)
    (user : User) (new : String)
    → IsIdentified (w.session s)
    → (w.session s).authenticated ≡ true
    → IsKnown (change_username env repos s user new w).0
unfolding change_username
rename-IsKnown env repos w s user new i e = ground arith

module _ {Store : Type 0} (env : Env) (repos : Repositories Store) (w : World Store) (s : ℕ)
    (a : AreIdentified w) where
  pub login-at :
      (name password : String) (t : ℕ)
      → IsIdentified ((handle_login env repos s name password w).1.session t)
  unfolding handle_login
  login-at name password t = ground (arith, a.at t, nat_beq_iff s t)

  pub login-IsKnown :
      (name password : String) → IsKnown (handle_login env repos s name password w).0
  unfolding handle_login
  login-IsKnown name password = ground (arith, a.at s)

  pub register-at :
      (name password : String) (t : ℕ)
      → IsIdentified ((handle_register env repos s name password w).1.session t)
  unfolding handle_register
  register-at name password t = ground (arith, a.at t)

  pub register-IsKnown :
      (name password : String) → IsKnown (handle_register env repos s name password w).0
  unfolding handle_register
  register-IsKnown name password = ground (arith, a.at s)

  pub change_password-at :
      (old new : String) (t : ℕ)
      → IsIdentified ((handle_change_password env repos s old new w).1.session t)
  unfolding handle_change_password
  change_password-at old new t = ground (arith, a.at t)

  pub change_password-IsKnown :
      (old new : String) → IsKnown (handle_change_password env repos s old new w).0
  unfolding handle_change_password
  change_password-IsKnown old new = ground (arith, a.at s)

  pub change_username-at :
      (new : String) (t : ℕ) → IsIdentified ((handle_change_username env repos s new w).1.session t)
  unfolding handle_change_username
  change_username-at new t = grind (arith, a.at t, a.at s, rename-at)

  pub change_username-IsKnown :
      (new : String) → IsKnown (handle_change_username env repos s new w).0
  unfolding handle_change_username
  change_username-IsKnown new = grind (arith, a.at s, rename-IsKnown)

  pub room_operation-at :
      (op : RoomOperation) (name : String) (t : ℕ)
      → IsIdentified ((handle_room_operation repos s op name w).1.session t)
  unfolding handle_room_operation
  room_operation-at join name t = ground (arith, a.at t)
  room_operation-at _ name t = ground (arith, a.at t)

  pub room_operation-IsKnown :
      (op : RoomOperation) (name : String) → IsKnown (handle_room_operation repos s op name w).0
  unfolding handle_room_operation
  room_operation-IsKnown join name = ground (arith, a.at s)
  room_operation-IsKnown _ name = ground (arith, a.at s)

  pub public_message-at :
      (content : String) (t : ℕ)
      → IsIdentified ((handle_public_message env repos s content w).1.session t)
  unfolding handle_public_message
  public_message-at content t = ground (arith, a.at t)

  pub public_message-IsKnown :
      (content : String) → IsKnown (handle_public_message env repos s content w).0
  unfolding handle_public_message
  public_message-IsKnown content = ground (arith, a.at s)

  pub private_message-at :
      (to content : String) (t : ℕ)
      → IsIdentified ((handle_private_message env s to content w).1.session t)
  unfolding handle_private_message
  private_message-at to content t = ground (arith, a.at t)

  pub private_message-IsKnown :
      (to content : String) → IsKnown (handle_private_message env s to content w).0
  unfolding handle_private_message
  private_message-IsKnown to content = grind (arith, a.at s, a.at)

  pub disconnect-at : (t : ℕ) → IsIdentified ((handle_disconnect s w).1.session t)
  unfolding handle_disconnect
  disconnect-at t = ground (arith, a.at t)

  pub disconnect-IsKnown : IsKnown (handle_disconnect s w).0
  unfolding handle_disconnect
  disconnect-IsKnown = ground (arith, a.at s)

  pub history-at :
      (name : String) (limit : ℤ) (t : ℕ)
      → IsIdentified ((handle_history_request repos s name limit w).1.session t)
  unfolding handle_history_request
  history-at name limit t = grind (arith, a.at t, entries-session)

  pub history-IsKnown :
      (name : String) (limit : ℤ) → IsKnown (handle_history_request repos s name limit w).0
  unfolding handle_history_request
  history-IsKnown name limit = grind (arith, a.at s, entries-session)
