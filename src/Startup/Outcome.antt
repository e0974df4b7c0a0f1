-- ===== src/Startup/Outcome.antt =====
-- How main of server/src/main.cpp ends.
use cpp_chat_server.Prelude.{ℕ, ◌≡◌, refl, String, Bool, none, some, List, [], arith}
use cpp_chat_server.Startup.{Json, Effect, conn_str_of, run_main}

module _ {J : Type 0} (json : Json J) (can_open : String → ℕ → Bool) (can_listen : ℕ → Bool) where
  -- A field of the wrong type ends `conn_str_of`, whatever stands before it.
  conn_str_of-port_not_int :
      (db_config field : J) (l : List Effect)
      → json.at db_config "port" ≡ some field
      → json.get_int field ≡ none
      → conn_str_of json db_config l ≡ (none, l)
  unfolding conn_str_of
  conn_str_of-port_not_int db_config field l a g = ground arith

  -- If the configuration file is parsed and has a database whose port is not an int, as the text
  -- "" of the example file is not, then main exits with 1, and no connection has been opened.
  pub run_main-port_not_int :
      (file : String) (config db_config field : J)
      → json.parse file ≡ some config
      → json.at config "database" ≡ some db_config
      → json.at db_config "port" ≡ some field
      → json.get_int field ≡ none
      → run_main json can_open can_listen (some file) ≡ (1, [])
  unfolding run_main
  run_main-port_not_int file config db_config field p d a g =
      rw (p, d, conn_str_of-port_not_int db_config field [] a g) refl
