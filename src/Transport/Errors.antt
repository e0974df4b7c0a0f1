-- ===== src/Transport/Errors.antt =====
-- handle_error of server/src/session/Session.cpp: when a connection is given up.
use cpp_chat_server.Prelude.{ℕ, ◌+◌, ◌≡◌, refl, Bool, true, false, List, [], ◌∷◌, if◌then◌else◌}

-- asio::error_code, by the codes that the program tells apart; `success` is `asio::error_code()`.
pub data ErrorCode : Type 0 where
  success eof operation_aborted connection_reset timed_out : ErrorCode
  other : ℕ → ErrorCode

pub record Closing : Type 0 where
  pub is_closed : Bool
  -- the calls of `server.onDisconnect`
  pub disconnects : ℕ

abbrev pub opened : Closing
opened = record { is_closed = false; disconnects = 0 }

-- The branches after the test of `is_closed` differ in what they log, but for `operation_aborted`.
unfoldable pub give_up : ErrorCode → Closing → Closing
give_up operation_aborted c = c
give_up _ c = record { is_closed = true; disconnects = c.disconnects + 1 }

unfoldable pub handle_error : ErrorCode → Closing → Closing
unfolding give_up
handle_error ec c = let given_up = give_up ec c in if c.is_closed then c else given_up

pub handle_errors : List ErrorCode → Closing → Closing
handle_errors [] c = c
handle_errors (ec ∷ l) c = handle_errors l (handle_error ec c)

abbrev is_aborted : ErrorCode → Bool
is_aborted operation_aborted = true
is_aborted _ = false

abbrev pub all_aborted : List ErrorCode → Bool
all_aborted [] = true
all_aborted (ec ∷ l) = let rest = all_aborted l in if is_aborted ec then rest else false

closed_stays :
    (l : List ErrorCode) (n : ℕ)
    → handle_errors l (record { is_closed = true; disconnects = n })
      ≡ record { is_closed = true; disconnects = n }
unfolding handle_errors handle_error
closed_stays [] n = refl
closed_stays (_ ∷ l) n = closed_stays l n

-- However often handle_error is called on a session, and with whatever codes, `onDisconnect` is
-- called at most once: not at all if every code is `operation_aborted`, and otherwise exactly
-- once, and the session is then closed.
pub handle_errors-once :
    (l : List ErrorCode)
    → handle_errors l opened
      ≡ (if all_aborted l then opened else record { is_closed = true; disconnects = 1 })
unfolding handle_errors handle_error
handle_errors-once [] = refl
handle_errors-once (operation_aborted ∷ l) = handle_errors-once l
handle_errors-once (success ∷ l) = closed_stays l 1
handle_errors-once (eof ∷ l) = closed_stays l 1
handle_errors-once (connection_reset ∷ l) = closed_stays l 1
handle_errors-once (timed_out ∷ l) = closed_stays l 1
handle_errors-once (other _ ∷ l) = closed_stays l 1
