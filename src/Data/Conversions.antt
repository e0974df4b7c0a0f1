-- ===== src/Data/Conversions.antt =====
-- server/src/data/SociTypeConversion.h: the conversions between rows and entities that SOCI can be given. A
-- row is the record Values, and `sscanf` is written out for the one format that is used.
pub mod Rows
use Prim.Native.Char.{Char, code}
use Prim.Native.String
use cpp_chat_server.Prelude.{
  ℤ, pos, negsuc, ℕ, zero, suc, ◌-◌, ◌+◌, ◌*◌, ◌≤◌, String, Bool, true, false, ◌&&◌, Option, none,
  some, List, [], ◌∷◌, ◌==◌, leb, ltb, if◌then◌else◌, nat_eq,
}
use cpp_chat_server.Client.Words.{skip_spaces}
use cpp_chat_server.Domain.{TimePoint, User, Room, Message}
use cpp_chat_server.Data.Driver.{Driver, Tm, Value, integer, text}
use cpp_chat_server.Data.Times.{from_time_t}

-- soci::values, by the columns that are asked for; `none` is an exception.
pub record Values : Type 0 where
  pub get_int : String → Option ℤ
  pub get_long_long : String → Option ℤ
  pub get_string : String → Option String
  pub get_tm : String → Option Tm
  -- get_indicator(…) == i_ok
  pub is_ok : String → Option Bool

abbrev is_digit : Char → Bool
is_digit c = leb b'0' (code c) && leb (code c) b'9'

-- The digits in front, behind those that gave `n`.
digits : ℕ → String → ℕ × String
digits n String.[] = (n, "")
digits n (String.◌∷◌ c s) =
    let rest = digits (n * 10 + (code c - b'0')) s in
    if is_digit c then rest else (n, String.◌∷◌ c s)

unsigned : String → Option (ℕ × String)
unfolding digits
unsigned String.[] = none
unsigned (String.◌∷◌ c s) = if is_digit c then some (digits 0 (String.◌∷◌ c s)) else none

negated : ℕ → ℤ
negated zero = pos 0
negated (suc n) = negsuc n

with_sign : (ℕ → ℤ) → Option (ℕ × String) → Option (ℤ × String)
with_sign sign none = none
with_sign sign (some (n, rest)) = some (sign n, rest)

signed : String → Option (ℤ × String)
unfolding unsigned negated with_sign
signed String.[] = none
signed (String.◌∷◌ c s) =
    if code c == b'-'
    then with_sign negated (unsigned s)
    else if code c == b'+'
    then with_sign pos (unsigned s)
    else with_sign pos (unsigned (String.◌∷◌ c s))

-- `%d`, for a number that fits an int
unfoldable pub scan_int : String → Option (ℤ × String)
unfolding skip_spaces signed
scan_int s = signed (skip_spaces s)

-- A character of the format that is no space.
literal : ℕ → String → Option String
literal n String.[] = none
literal n (String.◌∷◌ c s) = if code c == n then some s else none

infixl 5 ◌>>=◌
abbrev ◌>>=◌ : {A B : Type 0} → Option A → (A → Option B) → Option B
none >>= f = none
some a >>= f = f a

abbrev minus : ℤ → ℕ → ℤ
minus (pos n) k = if leb k n then pos (n - k) else negsuc (k - n - 1)
minus (negsuc n) k = negsuc (n + k)

-- sscanf with "%d-%d-%d %d:%d:%d", where it fills all six fields, and the two corrections
unfoldable pub scan_time : String → Option Tm
unfolding scan_int literal skip_spaces
scan_time s = do
  (year, s₁) ← scan_int s
  s₂ ← literal b'-' s₁
  (month, s₃) ← scan_int s₂
  s₄ ← literal b'-' s₃
  (day, s₅) ← scan_int s₄
  (hour, s₆) ← scan_int (skip_spaces s₅)
  s₇ ← literal b':' s₆
  (minute, s₈) ← scan_int s₇
  s₉ ← literal b':' s₈
  (second, _) ← scan_int s₉
  some (record {
    year = minus year 1900;
    month = minus month 1;
    day = day;
    hour = hour;
    minute = minute;
    second = second;
  })

-- A conversion into an object: whether it completed, and the object as it then is.
abbrev pub Conversion : Type 0 → Type 0
Conversion U = U → Bool × U

module _ {U : Type 0} where
  abbrev need : {A : Type 0} → Option A → (A → Conversion U) → Conversion U
  need none f u = (false, u)
  need (some a) f u = f a u

  abbrev then_set : (U → U) → Conversion U → Conversion U
  then_set f rest u = rest (f u)

  abbrev ending : (U → U) → Conversion U
  ending f u = (true, f u)

module _ {Db : Type 0} (driver : Driver Db) (v : Values) where
  scanned : Option Tm → TimePoint
  scanned none = driver.now
  scanned (some t) = from_time_t (driver.mktime t)

  -- The time of a column that is not null, as a time or else as a text.
  created_at_of : {U : Type 0} → Option Tm → (TimePoint → U → U) → Conversion U
  unfolding scanned scan_time
  created_at_of (some t) set = ending (set (from_time_t (driver.mktime t)))
  created_at_of none set =
      need (v.get_string "created_at") λ s. ending (set (scanned (scan_time s)))

  unfoldable pub message_from_base : Conversion Message
  unfolding created_at_of
  message_from_base = need (v.get_int "id") λ id. need (v.get_int "room_id") λ room.
      need (v.get_int "sender_id") λ sender.
        then_set (λ m. record m { id = id; room_id = room; sender_id = sender })
          (need (v.get_string "content") λ content.
            then_set (λ m. record m { content = content })
              (need (v.is_ok "created_at") λ ok.
                if ok
                then created_at_of (v.get_tm "created_at") (λ t m. record m { created_at = t })
                else ending (λ m. m)))

  -- A column that is left as it is where it is null.
  optional : {U A : Type 0} → String → Option A → (A → U → U) → Conversion U → Conversion U
  optional column cell set rest =
      need (v.is_ok column) λ ok. if ok then need cell (λ a. then_set (set a) rest) else rest

  pub created_at_or_now : {U : Type 0} → (TimePoint → U → U) → Conversion U
  unfolding created_at_of
  created_at_or_now set =
      need (v.is_ok "created_at")
        λ ok. if ok then created_at_of (v.get_tm "created_at") set else ending (set driver.now)

  unfoldable pub room_from_base : Conversion Room
  unfolding optional created_at_or_now
  room_from_base =
      optional "id" (v.get_long_long "id") (λ id r. record r { id = id })
        (optional "name" (v.get_string "name") (λ name r. record r { name = name })
          (optional "creator_id" (v.get_long_long "creator_id")
            (λ creator r. record r { creator_id = creator })
            (created_at_or_now (λ t r. record r { created_at = t }))))

  unfoldable pub user_from_base : Conversion User
  unfolding created_at_or_now
  user_from_base = need (v.get_int "id") λ id.
      then_set (λ u. record u { id = id })
        (need (v.get_string "username") λ username.
          then_set (λ u. record u { username = username })
            (need (v.get_string "hashed_password") λ hashed_password.
              then_set (λ u. record u { hashed_password = hashed_password })
                (need (v.get_string "salt") λ salt.
                  then_set (λ u. record u { salt = salt })
                    (created_at_or_now (λ t u. record u { created_at = t })))))

-- The columns that `to_base` sets.
unfoldable pub message_to_base : Message → List (String × Value)
message_to_base m =
    ("room_id", integer m.room_id)
    ∷ ("sender_id", integer m.sender_id)
    ∷ ("content", text m.content)
    ∷ []

unfoldable pub room_to_base : Room → List (String × Value)
room_to_base r = ("name", text r.name) ∷ ("creator_id", integer r.creator_id) ∷ []

unfoldable pub user_to_base : User → List (String × Value)
user_to_base u =
    ("username", text u.username)
    ∷ ("hashed_password", text u.hashed_password)
    ∷ ("salt", text u.salt)
    ∷ []
