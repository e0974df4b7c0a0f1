-- ===== src/Startup.antt =====
-- server/src/util/ConfigManager.h, ConfigManager.cpp and server/src/main.cpp: from the configuration file to
-- a server that accepts connections. The JSON library is the record Json.
pub mod Outcome
use cpp_chat_server.Prelude.{
  ℤ, ℕ, ◌≡◌, String, Bool, true, false, Option, none, some, List, [], ◌∷◌, ◌++◌, if◌then◌else◌,
  concat, to_string,
}

-- nlohmann::json, by what the program calls; `none` is a json::exception.
pub record Json (J : Type 0) : Type 0 where
  -- json::parse, on the text of a file
  pub parse : String → Option J
  -- the document before any is loaded
  pub null : J
  pub at : J → String → Option J
  pub get_string : J → Option String
  -- get<int>
  pub get_int : J → Option ℤ
  -- get<unsigned short>
  pub get_unsigned_short : J → Option ℕ
  -- value(key, 0), as an unsigned int
  pub value_or_zero : J → String → Option ℕ

pub record ConfigManager (J : Type 0) : Type 0 where
  pub config : J
  pub is_loaded : Bool

-- What main has done before it ends or waits for its threads.
pub data Effect : Type 0 where
  -- ConnectionPool::init
  opens_pool : (conn_str : String) (size : ℕ) → Effect
  -- the constructor of Server and `run`
  listens : (port : ℕ) → Effect
  -- the threads that run the io_context besides the main thread
  spawns : (threads : ℕ) → Effect

-- A part of main: what it did, and its value unless an exception ended it.
abbrev pub Start : Type 0 → Type 0
Start A = List Effect → Option A × List Effect

module _ {A : Type 0} where
  abbrev done : A → Start A
  done a l = (some a, l)

  -- the value of a call of the JSON library, or its exception
  abbrev given : Option A → Start A
  given o l = (o, l)

abbrev does : Effect → Start (Unit {0})
does e l = (some tt, l ++ e ∷ [])

-- a call that may throw, and is then not among the effects
abbrev does_if : Bool → Effect → Start (Unit {0})
does_if true e l = (some tt, l ++ e ∷ [])
does_if false e l = (none, l)

module _ {A B : Type 0} where
  abbrev next : Option A → (A → Start B) → Start B
  next none f l = (none, l)
  next (some a) f l = f a l

  infixl 5 ◌>>=◌ ◌>>◌
  abbrev ◌>>=◌ : Start A → (A → Start B) → Start B
  ◌>>=◌ m f l = let (o, l') = m l in next o f l'

  abbrev ◌>>◌ : Start A → Start B → Start B
  ◌>>◌ m n l = let (o, l') = m l in next o (λ _. n) l'

module _ {J : Type 0} (json : Json J) where
  abbrev pub no_config : ConfigManager J
  no_config = record { config = json.null; is_loaded = false }

  loaded : Option J → ConfigManager J → Bool × ConfigManager J
  loaded none manager = (false, record manager { is_loaded = false })
  loaded (some config) manager = (true, record { config = config; is_loaded = true })

  -- load, on the text of the file if it can be opened
  unfoldable pub load : Option String → ConfigManager J → Bool × ConfigManager J
  unfolding loaded
  load none manager = (false, record manager { is_loaded = false })
  load (some file) manager = loaded (json.parse file) manager

  -- getConfig, which throws if nothing is loaded
  unfoldable pub get_config : ConfigManager J → Option J
  get_config manager = if manager.is_loaded then some manager.config else none

  field_text : J → String → Start String
  field_text db_config key = do field ← given (json.at db_config key); given (json.get_string field)

  conn_str_of : J → Start String
  unfolding field_text
  conn_str_of db_config = do
    dbname ← field_text db_config "dbname"
    user ← field_text db_config "user"
    password ← field_text db_config "password"
    host ← field_text db_config "host"
    port_field ← given (json.at db_config "port")
    port ← given (json.get_int port_field)
    done (
        concat (
          "db="
          ∷ dbname
          ∷ " user="
          ∷ user
          ∷ " password="
          ∷ password
          ∷ " host="
          ∷ host
          ∷ " port="
          ∷ to_string port
          ∷ []))

  -- The `try` block of main, up to the wait for a signal. `can_open` says whether the connections of the
  -- pool can be made, and `can_listen` whether the port is free.
  serve : (String → ℕ → Bool) → (ℕ → Bool) → ConfigManager J → Start (Unit {0})
  unfolding get_config conn_str_of
  serve can_open can_listen manager = do
    config ← given (get_config manager)
    db_config ← given (json.at config "database")
    conn_str ← conn_str_of db_config
    does_if (can_open conn_str 10) (opens_pool conn_str 10)
    server_config ← given (json.at config "server")
    port_field ← given (json.at server_config "port")
    port ← given (json.get_unsigned_short port_field)
    does_if (can_listen port) (listens port)
    threads ← given (json.value_or_zero server_config "threads")
    does (spawns threads)

  exit_code : Option (Unit {0}) → ℕ
  exit_code none = 1
  exit_code (some _) = 0

  -- main, whose exit code is 0 when the server was stopped by a signal
  unfoldable pub run_main : (String → ℕ → Bool) → (ℕ → Bool) → Option String → ℕ × List Effect
  unfolding load serve exit_code
  run_main can_open can_listen file =
      let (ok, manager) = load file no_config in
      let (end, effects) = serve can_open can_listen manager [] in
      if ok then (exit_code end, effects) else (1, [])
