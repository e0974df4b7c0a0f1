-- ===== src/Data/Times.antt =====
-- How server/src/data/MySQL*Repository.cpp read a `created_at` column and the other columns of a row.
use cpp_chat_server.Prelude.{
  ℤ, pos, negsuc, suc, ◌-◌, ◌*◌, ◌^◌, String, List, ◌∷◌, int_eq, ◌==◌, if◌then◌else◌,
}
use cpp_chat_server.Domain.{TimePoint, unset}
use cpp_chat_server.Data.Driver.{Driver, Cell, number, string, time}

-- std::chrono::system_clock::from_time_t, in nanoseconds
abbrev pub from_time_t : ℤ → TimePoint
from_time_t (pos n) = pos (n * 10 ^ 9)
from_time_t (negsuc n) = negsuc (suc n * 10 ^ 9 - 1)

-- An indicator that is not `i_ok` leaves the variable as it is.
abbrev pub integer_or : ℤ → Cell → ℤ
integer_or before (number n) = n
integer_or before _ = before

abbrev pub text_or : String → Cell → String
text_or before (string s) = s
text_or before _ = before

-- The same where the variable is a new one.
abbrev pub integer_of : Cell → ℤ
integer_of = integer_or unset

abbrev pub text_of : Cell → String
text_of = text_or ""

module _ {Db : Type 0} (driver : Driver Db) where
  -- of the methods that look one row up: the result of mktime is not tested
  unfoldable pub found_at : Cell → TimePoint
  found_at (time t) = from_time_t (driver.mktime t)
  found_at _ = driver.now

  -- of the methods that walk over rows: -1 stands for a time that mktime could not represent
  unfoldable pub listed_at : Cell → TimePoint
  listed_at (time t) =
      if driver.mktime t == negsuc 0 then driver.now else from_time_t (driver.mktime t)
  listed_at _ = driver.now

  -- type_conversion<time_point>::from_base, on a variable that is default-constructed
  unfoldable pub converted : List (List Cell) → TimePoint
  converted ((time t ∷ _) ∷ _) = from_time_t (driver.mktime t)
  converted _ = pos 0
