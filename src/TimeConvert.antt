-- ===== src/TimeConvert.antt =====
-- server/src/util/TimeConvert.cpp
use cpp_chat_server.Prelude.{ℤ, pos, negsuc, ℕ, zero, suc, ◌/◌, ◌%◌}
use cpp_chat_server.Protocol.{Timestamp}
use cpp_chat_server.Domain.{TimePoint}

abbrev nanos_per_second : ℕ
nanos_per_second = 1_000_000_000

-- - n, as an integer
negate : ℕ → ℤ
negate zero = pos 0
negate (suc m) = negsuc m

-- `duration_cast` to seconds divides towards zero, and what is left over keeps the sign.
unfoldable pub convert_time_point_to_timestamp : TimePoint → Timestamp
unfolding negate
convert_time_point_to_timestamp (pos n) = record {
  seconds = pos (n / nanos_per_second);
  nanos = pos (n % nanos_per_second);
}
convert_time_point_to_timestamp (negsuc n) = record {
  seconds = negate (suc n / nanos_per_second);
  nanos = negate (suc n % nanos_per_second);
}
