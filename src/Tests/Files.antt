-- ===== src/Tests/Files.antt =====
-- The configuration file config.example.json, by the names of its fields.
use cpp_chat_server.Prelude.{
  String, ◌≡◌, refl, true, none, some, [], ◌==◌, if◌then◌else◌, string_eq,
}
use cpp_chat_server.Startup.{Json, run_main}
use cpp_chat_server.Startup.Outcome.{run_main-port_not_int}

-- Every field of the database is a text, also its port, and no number of threads is given.
abbrev example : Json String
example = record {
  parse = some;
  null = "null";
  at = λ document key. some key;
  get_string = λ key. some (if key == "dbname" then "chat_server_db" else "");
  get_int = λ key. none;
  get_unsigned_short = λ key. some 12345;
  value_or_zero = λ document key. some 0;
}

run_main-port_not_int_example :
    run_main example (λ conn_str size. true) (λ port. true) (some "config.example.json") ≡ (1, [])
run_main-port_not_int_example =
    run_main-port_not_int example (λ conn_str size. true) (λ port. true) "config.example.json"
      "config.example.json" "database" "port" refl refl refl refl
