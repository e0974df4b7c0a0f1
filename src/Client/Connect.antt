-- ===== src/Client/Connect.antt =====
-- connect of client/src/client.cpp, and the handler that client/src/main.cpp gives to it.
use cpp_chat_server.Prelude.{String, Bool, true, false, [], ◌∷◌, concat}
use cpp_chat_server.Transport.Errors.{ErrorCode, success}
use cpp_chat_server.Client.State.{out, err, Client, Texts, print, close, handle_error}

-- The lambda in main: the client is closed if there is no connection.
unfoldable pub on_connect : Texts → ErrorCode → Client → Client
unfolding print close
on_connect texts success c =
    print (out "[System] Connection established. You can start chatting.") c
on_connect texts ec c =
    close (print (err (concat ("[System] Connection failed: " ∷ texts.message ec ∷ []))) c)

-- The completion of `async_connect`, and whether `do_read_header` is called.
connected : Texts → (ErrorCode → Client → Client) → String → ErrorCode → Client → Client × Bool
unfolding print handle_error
connected texts handler endpoint success c = (
  print (out (concat ("[System] Successfully initiated connection to " ∷ endpoint ∷ [])))
      (handler success c),
  true,
)
connected texts handler endpoint ec c = (handle_error texts "connect" ec (handler ec c), false)

-- `made` is what `make_address` says of the host, `ended` how the connection attempt ends, and `endpoint` the
-- text of `remote_endpoint()`.
unfoldable pub connect :
    Texts
    → (ErrorCode → Client → Client)
    → String
    → ErrorCode
    → String
    → ErrorCode
    → Client
    → Client × Bool
unfolding connected print handle_error
connect texts handler host success endpoint ended c = connected texts handler endpoint ended c
connect texts handler host made endpoint ended c = (
  handle_error texts "make_address" made
      (print (err (concat ("[FATAL] Invalid IP address format: " ∷ host ∷ []))) c),
  false,
)
