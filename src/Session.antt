-- ===== src/Session.antt =====
-- server/src/session/Session.h and Session.cpp: who a connection is authenticated as.
use cpp_chat_server.Prelude.{ℤ, String, ◌≡◌, refl, Bool, true, false, Option, none, some}

pub record Session : Type 0 where
  pub user_id : Option ℤ
  pub username : Option String
  pub authenticated : Bool

abbrev pub new_session : Session
new_session = record { user_id = none; username = none; authenticated = false }

-- setAuthenticated
unfoldable pub set_authenticated : ℤ → String → Session → Session
set_authenticated user_id username s = record {
  user_id = some user_id;
  username = some username;
  authenticated = true;
}

-- setUsername
unfoldable pub set_username : String → Session → Session
set_username new_username s = record s { username = some new_username }

-- clearAuthentication
unfoldable pub clear_authentication : Session → Session
clear_authentication s = record { user_id = none; username = none; authenticated = false }

abbrev pub is_some {ℓ} : {A : Type ℓ} → Option A → Bool
is_some none = false
is_some (some a) = true

-- A session has a user id and a name exactly while it is authenticated.
pub record IsIdentified (s : Session) : Type 0 where
  pub by_id : is_some s.user_id ≡ s.authenticated
  pub by_name : is_some s.username ≡ s.authenticated

pub IsIdentified-new_session : IsIdentified new_session
IsIdentified-new_session = record { by_id = refl; by_name = refl }
