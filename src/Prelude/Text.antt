-- ===== src/Prelude/Text.antt =====
-- `std::string` where the program only builds and compares whole texts, and `std::to_string`.
use Prim.Native.Nat.{ℕ, zero, suc, ◌/◌, ◌%◌}
use Prim.Native.String
use Prim.Native.String.{String}
use mathlib.Core.List.{List, [], ◌∷◌}
use cpp_chat_server.Prelude.Int.{ℤ, pos, negsuc}
use cpp_chat_server.Prelude.Tests.{ltb, if◌then◌else◌}

-- a + b + …
abbrev pub concat : List String → String
concat [] = ""
concat (s ∷ l) = String.◌++◌ s (concat l)

unfoldable pub digit : ℕ → String
digit zero = "0"
digit (suc zero) = "1"
digit (suc (suc zero)) = "2"
digit (suc (suc (suc zero))) = "3"
digit (suc (suc (suc (suc zero)))) = "4"
digit (suc (suc (suc (suc (suc zero))))) = "5"
digit (suc (suc (suc (suc (suc (suc zero)))))) = "6"
digit (suc (suc (suc (suc (suc (suc (suc zero))))))) = "7"
digit (suc (suc (suc (suc (suc (suc (suc (suc zero)))))))) = "8"
digit _ = "9"

-- Decimal digits, most significant first. The number itself is fuel enough: a tenth is smaller.
decimal_from : ℕ → ℕ → String
unfolding digit
decimal_from zero n = ""
decimal_from (suc fuel) n =
    let front = decimal_from fuel (n / 10) in
    if ltb n 10 then digit n else String.◌++◌ front (digit (n % 10))

unfoldable pub decimal : ℕ → String
unfolding decimal_from
decimal n = decimal_from (suc n) n

-- std::to_string(long long)
unfoldable pub to_string : ℤ → String
unfolding decimal
to_string (pos n) = decimal n
to_string (negsuc n) = String.◌++◌ "-" (decimal (suc n))
