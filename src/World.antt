-- ===== src/World.antt =====
-- The server's shared state: the session objects, the maps of SessionManager and RoomService, the
-- database behind the repositories, and what the handlers gave to Session::send.
use cpp_chat_server.Prelude.{
  ℤ, ℕ, String, Bool, Option, List, [], ◌∷◌, ◌++◌, ◌==◌, if◌then◌else◌, nat_eq,
}
use cpp_chat_server.Map.{Map}
use cpp_chat_server.Protocol.{Envelope, Timestamp}
use cpp_chat_server.Exec.{
  user_id_not_set, bad_optional_access, database_error, Exec, gets, value_or, modify,
}
use cpp_chat_server.Repository.{Query}
use cpp_chat_server.Session.{Session}
use cpp_chat_server.Rooms.{Rooms}

-- The maps of server/src/core/SessionManager.h. A session stands in them by its address.
pub record SessionManager : Type 0 where
  pub sessions : Map ℕ (Unit {0})
  pub sessions_by_user_id : Map ℤ ℕ
  pub sessions_by_username : Map String ℕ

pub record World (Store : Type 0) : Type 0 where
  -- the session object at an address
  pub session : ℕ → Session
  pub manager : SessionManager
  pub rooms : Rooms
  pub store : Store
  -- the calls of Session::send, oldest first
  pub sent : List (ℕ × Envelope)

-- What a handler takes from outside the program: the time, OpenSSL's RAND_bytes for a buffer of
-- some length (`none` where it does not return 1), and its SHA-256 of a text's bytes.
pub record Env : Type 0 where
  pub now : Timestamp
  pub rand_bytes : ℕ → Option (List ℕ)
  pub sha256 : String → List ℕ

module _ {Store : Type 0} where
  -- A call of a repository.
  unfoldable pub call : {A : Type 0} → Query Store A → Exec (World Store) A
  call m w = let (r, store) = m w.store in value_or r database_error (record w { store = store })

  -- session->send(envelope)
  unfoldable pub send : ℕ → Envelope → Exec (World Store) (Unit {0})
  send s e = modify λ w. record w { sent = w.sent ++ (s, e) ∷ [] }

  unfoldable pub is_authenticated : ℕ → Exec (World Store) Bool
  is_authenticated s = gets λ w. (w.session s).authenticated

  -- getUserId throws std::logic_error
  unfoldable pub get_user_id : ℕ → Exec (World Store) ℤ
  get_user_id s w = value_or (w.session s).user_id user_id_not_set w

  -- getUsername is `username.value()`
  unfoldable pub get_username : ℕ → Exec (World Store) String
  get_username s w = value_or (w.session s).username bad_optional_access w

  unfoldable pub update_session : ℕ → (Session → Session) → Exec (World Store) (Unit {0})
  update_session s f =
      modify λ w. record w { session = λ t. if s == t then f (w.session t) else w.session t }

  unfoldable pub update_manager : (SessionManager → SessionManager) → Exec (World Store) (Unit {0})
  update_manager f = modify λ w. record w { manager = f w.manager }

  unfoldable pub update_rooms : (Rooms → Rooms) → Exec (World Store) (Unit {0})
  update_rooms f = modify λ w. record w { rooms = f w.rooms }
