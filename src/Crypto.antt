-- ===== src/Crypto.antt =====
-- server/src/util/Crypto.cpp. SHA-256 and the random bytes are OpenSSL's, and enter by `Env`.
use cpp_chat_server.Prelude.{ℕ, zero, suc, ◌/◌, ◌%◌, String, List, [], ◌∷◌, concat, decimal, length}
use cpp_chat_server.Exec.{Exec, value_or, pure, no_random_salt, ◌>>=◌}
use cpp_chat_server.World.{Env}

unfoldable pub hex_digit : ℕ → String
hex_digit zero = "0"
hex_digit (suc zero) = "1"
hex_digit (suc (suc zero)) = "2"
hex_digit (suc (suc (suc zero))) = "3"
hex_digit (suc (suc (suc (suc zero)))) = "4"
hex_digit (suc (suc (suc (suc (suc zero))))) = "5"
hex_digit (suc (suc (suc (suc (suc (suc zero)))))) = "6"
hex_digit (suc (suc (suc (suc (suc (suc (suc zero))))))) = "7"
hex_digit (suc (suc (suc (suc (suc (suc (suc (suc zero)))))))) = "8"
hex_digit (suc (suc (suc (suc (suc (suc (suc (suc (suc zero))))))))) = "9"
hex_digit (suc (suc (suc (suc (suc (suc (suc (suc (suc (suc zero)))))))))) = "a"
hex_digit (suc (suc (suc (suc (suc (suc (suc (suc (suc (suc (suc zero))))))))))) = "b"
hex_digit (suc (suc (suc (suc (suc (suc (suc (suc (suc (suc (suc (suc zero)))))))))))) = "c"
hex_digit (suc (suc (suc (suc (suc (suc (suc (suc (suc (suc (suc (suc (suc zero))))))))))))) = "d"
hex_digit (suc (suc (suc (suc (suc (suc (suc (suc (suc (suc (suc (suc (suc (suc zero)))))))))))))) =
    "e"
hex_digit _ = "f"

-- `std::hex << std::setw(2) << std::setfill('0')` of each byte
unfoldable pub hex : List ℕ → String
unfolding hex_digit
hex [] = ""
hex (b ∷ l) = concat (hex_digit (b / 16) ∷ hex_digit (b % 16) ∷ hex l ∷ [])

spaced_hex : List ℕ → String
unfolding hex_digit
spaced_hex [] = ""
spaced_hex (b ∷ l) = concat (hex_digit (b / 16) ∷ hex_digit (b % 16) ∷ " " ∷ spaced_hex l ∷ [])

-- The lines that print_string_details prints of a text with these bytes.
unfoldable pub string_details : String → List ℕ → List String
unfolding spaced_hex
string_details name bytes =
    concat ("--- Details for: " ∷ name ∷ " ---" ∷ [])
    ∷ concat ("Length: " ∷ decimal (length bytes) ∷ " bytes" ∷ [])
    ∷ concat ("Hex Content: " ∷ spaced_hex bytes ∷ [])
    ∷ "------------------------------------"
    ∷ []

module _ (env : Env) where
  unfoldable pub hash_password : String → String → String
  unfolding hex
  hash_password password salt = hex (env.sha256 (concat (password ∷ salt ∷ [])))

  -- with the default length
  unfoldable pub generate_salt : {S : Type 0} → Exec S String
  unfolding hex
  generate_salt = do bytes ← value_or (env.rand_bytes 16) no_random_salt; pure (hex bytes)
