-- ===== src/Server/Gate.antt =====
-- dispatchMessage of server/src/core/Server.cpp on a session that has not logged in.
use cpp_chat_server.Prelude.{ℕ, ◌≡◌, Bool, true, false, [], ◌∷◌, ◌++◌, arith}
use cpp_chat_server.Protocol.{Payload, login_request, registration_request, Envelope}
use cpp_chat_server.Exec.{ok}
use cpp_chat_server.Repository.{Repositories}
use cpp_chat_server.World.{World, Env}
use cpp_chat_server.AuthService.{refuse}
use cpp_chat_server.Server.{dispatch_payload, dispatch_message}

-- The two requests that need no login.
abbrev pub is_open : Payload → Bool
is_open (login_request username password) = true
is_open (registration_request username password) = true
is_open _ = false

module _ {Store : Type 0} (env : Env) (repos : Repositories Store) (w : World Store) (s : ℕ) where
  gate :
      (p : Payload)
      → (w.session s).authenticated ≡ false
      → is_open p ≡ false
      → dispatch_payload env repos s p w
        ≡ (ok tt, record w { sent = w.sent ++ (s, refuse "Authentication required.") ∷ [] })
  unfolding dispatch_payload
  gate (login_request username password) h k = cc
  gate (registration_request username password) h k = cc
  gate _ h k = ground arith

  -- On a session that is not authenticated, every envelope but a login or a registration request
  -- has one effect: an error response, "Authentication required.", to that session. No session
  -- object, no map of the server and no table changes.
  pub dispatch_unauthenticated :
      (e : Envelope)
      → (w.session s).authenticated ≡ false
      → is_open e.payload ≡ false
      → dispatch_message env repos s e w
        ≡ (ok tt, record w { sent = w.sent ++ (s, refuse "Authentication required.") ∷ [] })
  unfolding dispatch_message
  dispatch_unauthenticated e h k = gate e.payload h k
