-- ===== src/SessionManager.antt =====
-- server/src/core/SessionManager.cpp. Each method runs under the server's recursive mutex.
pub mod Index
use cpp_chat_server.Prelude.{
  ℤ, ℕ, String, Bool, Option, List, [], ◌∷◌, ◌++◌, map, if◌then◌else◌, nat_eq, int_eq, string_eq,
}
use cpp_chat_server.Map.{get, put, erase, to_list}
use cpp_chat_server.Protocol.{Envelope}
use cpp_chat_server.Exec.{Exec, gets, when, pure, ◌>>=◌, ◌>>◌}
use cpp_chat_server.Session.{set_authenticated, set_username}
use cpp_chat_server.World.{
  World, SessionManager, send, is_authenticated, get_user_id, get_username, update_session,
  update_manager,
}

module _ {Store : Type 0} where
  unfoldable pub add : ℕ → Exec (World Store) (Unit {0})
  unfolding update_manager
  add s = update_manager λ m. record m { sessions = put m.sessions s tt }

  unfoldable pub remove : ℕ → Exec (World Store) (Unit {0})
  unfolding is_authenticated get_user_id get_username update_manager
  remove s = do
    authenticated ← is_authenticated s
    when authenticated do
      user_id ← get_user_id s
      update_manager λ m. record m { sessions_by_user_id = erase m.sessions_by_user_id user_id }
      username ← get_username s
      update_manager λ m. record m { sessions_by_username = erase m.sessions_by_username username }
    update_manager λ m. record m { sessions = erase m.sessions s }

  unfoldable pub update_username : ℕ → String → Exec (World Store) (Unit {0})
  unfolding get_username update_manager update_session set_username
  update_username s new_username = do
    username ← get_username s
    update_manager λ m. record m { sessions_by_username = erase m.sessions_by_username username }
    update_session s (set_username new_username)
    update_manager
        λ m. record m { sessions_by_username = put m.sessions_by_username new_username s }

  unfoldable pub register_authenticated_session : ℕ → ℤ → String → Exec (World Store) (Unit {0})
  unfolding update_manager update_session set_authenticated
  register_authenticated_session s user_id username = do
    update_manager λ m. record m {
      sessions_by_user_id = put m.sessions_by_user_id user_id s;
      sessions_by_username = put m.sessions_by_username username s;
    }
    update_session s (set_authenticated user_id username)

  unfoldable pub find_by_username : String → Exec (World Store) (Option ℕ)
  find_by_username username = gets λ w. get w.manager.sessions_by_username username

  unfoldable pub find_by_user_id : ℤ → Exec (World Store) (Option ℕ)
  find_by_user_id user_id = gets λ w. get w.manager.sessions_by_user_id user_id

  -- the loop of `broadcast`
  broadcast_to : List (ℕ × Unit {0}) → Envelope → Exec (World Store) (Unit {0})
  unfolding is_authenticated send
  broadcast_to [] e = pure tt
  broadcast_to ((s, _) ∷ l) e = do
    authenticated ← is_authenticated s
    when authenticated (send s e)
    broadcast_to l e

  pub broadcast : Envelope → Exec (World Store) (Unit {0})
  unfolding broadcast_to
  broadcast e = do m ← gets (λ w. w.manager); broadcast_to (to_list m.sessions) e
