-- ===== src/Server/Accept.antt =====
-- start_accept, handle_accept and onMessage of server/src/core/Server.cpp: how connections come in, and how their
-- messages become tasks.
use cpp_chat_server.Prelude.{
  ℕ, ◌+◌, ◌-◌, ◌≡◌, refl, Bool, List, [], ◌∷◌, ◌++◌, arith, if◌then◌else◌, ◌&&◌, Bool-cases,
  Option-cases, inl, inr,
}
use cpp_chat_server.Protocol.{Envelope}
use cpp_chat_server.Exec.{Exec, ok, pure, when, ◌>>=◌, ◌>>◌}
use cpp_chat_server.Session.{IsIdentified}
use cpp_chat_server.World.{World, is_authenticated, get_username, get_user_id}
use cpp_chat_server.Server.{Task, message}

pub record Acceptor : Type 0 where
  -- the `async_accept`s that have not completed
  pub waiting : ℕ
  -- the sessions on which `start` was called, oldest first
  pub started : List ℕ

pub start_accept : Acceptor → Acceptor
start_accept a = record a { waiting = a.waiting + 1 }

-- `is_open` is false where `remote_endpoint` throws, which is caught.
pub handle_accept : (accepted is_open : Bool) → ℕ → Acceptor → Acceptor
unfolding start_accept
handle_accept accepted is_open s a =
    start_accept (if accepted && is_open then record a { started = a.started ++ s ∷ [] } else a)

-- A completed accept.
pub complete : Bool × Bool × ℕ → Acceptor → Acceptor
unfolding handle_accept
complete (accepted, is_open, s) a =
    handle_accept accepted is_open s (record a { waiting = a.waiting - 1 })

pub complete_all : List (Bool × Bool × ℕ) → Acceptor → Acceptor
complete_all [] a = a
complete_all (c ∷ l) a = complete_all l (complete c a)

-- Server::run
pub run_server : Acceptor
unfolding start_accept
run_server = start_accept (record { waiting = 0; started = [] })

waiting-complete_all :
    (l : List (Bool × Bool × ℕ)) (a : Acceptor) → a.waiting ≡ 1 → (complete_all l a).waiting ≡ 1
unfolding complete_all complete
waiting-complete_all [] a h = h
waiting-complete_all ((accepted, is_open, s) ∷ l) a h =
    waiting-complete_all l _
      (elim (Bool-cases (accepted && is_open)) [ inl e ↦ ground arith | inr e ↦ ground arith ])

-- Whatever accepts end with, the server waits for one more connection.
pub waiting-run_server : (l : List (Bool × Bool × ℕ)) → (complete_all l run_server).waiting ≡ 1
unfolding run_server
waiting-run_server l = waiting-complete_all l _ refl

module _ {Store : Type 0} where
  -- The log line reads the name and the id of a session that is authenticated.
  unfoldable pub on_message : ℕ → Envelope → Exec (World Store) Task
  unfolding is_authenticated get_username get_user_id
  on_message s e = do
    authenticated ← is_authenticated s
    when authenticated do get_username s; get_user_id s; pure tt
    pure (message s e)

  -- A session that is well identified has its message posted, and nothing else happens to it.
  pub on_message-posts :
      (s : ℕ) (e : Envelope) (w : World Store)
      → IsIdentified (w.session s)
      → on_message s e w ≡ (ok (message s e), w)
  unfolding on_message
  on_message-posts s e w h = elim (Option-cases (w.session s).user_id) [
    | inl i ↦ elim (Option-cases (w.session s).username) [
      | inl n ↦ ground (arith, h.by_id, h.by_name)
      | inr (name, n) ↦ ground (arith, h.by_id, h.by_name)
    ]
    | inr (id, i) ↦ elim (Option-cases (w.session s).username) [
      | inl n ↦ ground (arith, h.by_id, h.by_name)
      | inr (name, n) ↦ ground (arith, h.by_id, h.by_name)
    ]
  ]
