-- ===== src/Client/State.antt =====
-- client/src/client.h and the parts of client.cpp that the rest of the client calls: what a client
-- keeps, and what it prints when something goes wrong.
use cpp_chat_server.Prelude.{
  ℤ, ℕ, ◌+◌, String, Bool, true, false, ◌||◌, List, [], ◌∷◌, ◌++◌, ◌==◌, if◌then◌else◌, nat_eq,
  concat, to_string,
}
use cpp_chat_server.Protocol.{Timestamp, Envelope}
use cpp_chat_server.Transport.Errors.{
  ErrorCode, success, eof, operation_aborted, connection_reset, other,
}

-- A line on std::cout or on std::cerr.
pub data Line : Type 0 where
  out err : String → Line

pub record Client : Type 0 where
  -- currentRoom
  pub current_room : String
  -- the calls of `send`, oldest first
  pub sent : List Envelope
  -- what was printed, oldest first
  pub console : List Line
  -- the calls of `close`
  pub closes : ℕ

abbrev pub new_client : Client
new_client = record { current_room = ""; sent = []; console = []; closes = 0 }

-- What the client takes from protobuf and asio: TimeUtil::ToString, and the number and the text of
-- an error code.
pub record Texts : Type 0 where
  pub of_time : Timestamp → String
  pub value : ErrorCode → ℤ
  pub message : ErrorCode → String

-- setCurrentRoom
unfoldable pub set_current_room : String → Client → Client
set_current_room room c = record c { current_room = room }

unfoldable pub print : Line → Client → Client
print line c = record c { console = c.console ++ line ∷ [] }

unfoldable pub print_all : List Line → Client → Client
unfolding print
print_all [] c = c
print_all (line ∷ l) c = print_all l (print line c)

unfoldable pub send : Envelope → Client → Client
send e c = record c { sent = c.sent ++ e ∷ [] }

unfoldable pub close : Client → Client
close c = record c { closes = c.closes + 1 }

-- handle_error. Behind `else if (ec)` no branch is left that can be taken.
unfoldable pub handle_error : Texts → String → ErrorCode → Client → Client
unfolding print
handle_error texts place success c = c
handle_error texts place eof c =
    print (out (concat ("[System] Connection closed by server (" ∷ place ∷ ")." ∷ []))) c
handle_error texts place ec c =
    print (err (concat ("[Error] in " ∷ place ∷ ": " ∷ texts.message ec ∷ []))) c

-- The codes that `do_read_header` takes for the end of the connection.
unfoldable pub is_end : ErrorCode → Bool
is_end eof = true
is_end operation_aborted = true
is_end connection_reset = true
is_end (other n) = n == 1236 || n == 10053 || n == 10054 || n == 104 || n == 103
is_end _ = false

-- The error branch of `do_read_header`.
unfoldable pub read_header_failed : Texts → ErrorCode → Client → Client
unfolding print handle_error is_end
read_header_failed texts ec c =
    let told =
      print
        (err (
          concat (
            ">>> Actual error code: "
            ∷ to_string (texts.value ec)
            ∷ " ("
            ∷ texts.message ec
            ∷ ")"
            ∷ [])))
        c in
    if is_end ec
    then handle_error texts "Connection closed by peer" ec told
    else handle_error texts "Read header" ec
        (print (err (concat ("Read header error: " ∷ texts.message ec ∷ []))) told)

-- The error branch of `do_read_body`.
unfoldable pub read_body_failed : Texts → ErrorCode → Client → Client
unfolding print handle_error
read_body_failed texts ec c =
    handle_error texts "Read body" ec
      (print (err (concat ("Read body error: " ∷ texts.message ec ∷ []))) c)

-- The error branch of `handle_write`.
unfoldable pub write_failed : Texts → ErrorCode → Client → Client
unfolding print handle_error
write_failed texts ec c =
    handle_error texts "Write" ec (print (err (concat ("Write error: " ∷ texts.message ec ∷ []))) c)
