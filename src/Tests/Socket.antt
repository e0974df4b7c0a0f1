-- ===== src/Tests/Socket.antt =====
-- Frames, writes and errors, at concrete byte strings.
use cpp_chat_server.Prelude.{
  ℕ, zero, ◌≡◌, refl, true, Option, none, some, List, [], ◌∷◌, ◌++◌, arith, length, inl,
}
use cpp_chat_server.Transport.Frame.{frame}
use cpp_chat_server.Transport.Reader.{
  frames, read, read-frames, read-oversized, waiting, invalid_length,
}
use cpp_chat_server.Transport.Writer.{idle, run, Event, sends, writes, fails, sent}
use cpp_chat_server.Transport.Writer.Order.{IsOrderly, run-IsOrderly}
use cpp_chat_server.Transport.Writer.Drain.{run-drain, writes_of}
use cpp_chat_server.Transport.Errors.{
  eof, operation_aborted, connection_reset, handle_errors, opened, handle_errors-once,
}

-- A parser that takes every body but those that start with 0, as its length.
abbrev parse : List ℕ → Option ℕ
parse [] = none
parse (zero ∷ l) = none
parse (b ∷ l) = some (length (b ∷ l))

read-frames_example :
    read parse (frames ((7 ∷ 8 ∷ []) ∷ (9 ∷ []) ∷ []))
    ≡ record { messages = 2 ∷ 1 ∷ []; stop = waiting }
read-frames_example =
    read-frames parse ((7 ∷ 8 ∷ []) ∷ (9 ∷ []) ∷ []) (2 ∷ 1 ∷ [])
      (omega arith, omega arith, refl, (omega arith, omega arith, refl, tt))

read-oversized_example :
    read parse (frame [] ++ 1 ∷ []) ≡ record { messages = []; stop = invalid_length 0 }
read-oversized_example = read-oversized parse [] (1 ∷ []) (omega arith) (inl refl)

abbrev events : List Event
events = sends (1 ∷ []) ∷ sends (2 ∷ []) ∷ writes ∷ sends (3 ∷ []) ∷ []

run-IsOrderly_example :
    IsOrderly (run idle (events ++ fails ∷ [])) ([] ++ sent (events ++ fails ∷ []))
run-IsOrderly_example =
    run-IsOrderly idle [] (events ++ fails ∷ []) (record { one = tt; in_order = refl })

run-drain_example :
    run (run idle events) (writes_of (run idle events).queue)
    ≡ record { queue = []; in_flight = []; written = sent events }
run-drain_example = run-drain events refl

handle_errors-once_example :
    handle_errors (operation_aborted ∷ eof ∷ connection_reset ∷ []) opened
    ≡ record { is_closed = true; disconnects = 1 }
handle_errors-once_example = handle_errors-once (operation_aborted ∷ eof ∷ connection_reset ∷ [])
