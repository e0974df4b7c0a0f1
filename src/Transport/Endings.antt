-- ===== src/Transport/Endings.antt =====
-- How the reader of server/src/session/Session.cpp ends a session: a read that fails gives its code to handle_error,
-- and a frame that cannot be read gives `asio::error_code()`.
use cpp_chat_server.Prelude.{ℕ, ◌≡◌, ◌≢◌, refl, true, Option, List}
use cpp_chat_server.Transport.Reader.{
  Stop, waiting, invalid_length, failed_to_parse, out_of_fuel, read,
}
use cpp_chat_server.Transport.Reader.Rounds.{read-ends}
use cpp_chat_server.Transport.Errors.{ErrorCode, success, Closing, opened, give_up, handle_error}

-- The error branch of do_read_header and of do_read_body: each code leads to handle_error.
unfoldable pub read_failed : ErrorCode → Closing → Closing
unfolding handle_error
read_failed ec c = handle_error ec c

-- The session, when the reader has stopped.
unfoldable pub reader_stopped : Stop → Closing → Closing
unfolding handle_error
reader_stopped (invalid_length n) c = handle_error success c
reader_stopped failed_to_parse c = handle_error success c
reader_stopped _ c = c

-- What a stop does to an open session.
abbrev pub closing_of : Stop → Closing
closing_of waiting = opened
closing_of _ = record { is_closed = true; disconnects = 1 }

stop-closes : (stop : Stop) → stop ≢ out_of_fuel → reader_stopped stop opened ≡ closing_of stop
unfolding reader_stopped give_up
stop-closes waiting h = refl
stop-closes (invalid_length n) h = refl
stop-closes failed_to_parse h = refl
stop-closes out_of_fuel h = absurd (h refl)

-- On every stream: the session stays open while the reader waits, and otherwise is closed, with one call of
-- `onDisconnect`.
pub read-closes :
    {M : Type 0} (parse : List ℕ → Option M) (stream : List ℕ)
    → reader_stopped (read parse stream).stop opened ≡ closing_of (read parse stream).stop
read-closes parse stream = stop-closes (read parse stream).stop (read-ends parse stream)
