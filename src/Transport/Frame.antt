-- ===== src/Transport/Frame.antt =====
-- The four bytes in front of a body in server/src/session/Session.cpp: `htonl` of its size, as `send`
-- writes them, and `ntohl` of what `do_read_header` reads.
use cpp_chat_server.Prelude.{
  ℕ, ◌+◌, ◌*◌, ◌/◌, ◌%◌, ◌^◌, ◌<◌, ◌≡◌, List, [], ◌∷◌, ◌++◌, arith, length,
}

-- The parameter of `htonl` is a uint32_t, and the first byte in memory is the most significant.
unfoldable pub header : ℕ → List ℕ
header size =
    let n = size % 2 ^ 32 in
    (n / 2 ^ 24) ∷ (n / 2 ^ 16 % 2 ^ 8) ∷ (n / 2 ^ 8 % 2 ^ 8) ∷ (n % 2 ^ 8) ∷ []

unfoldable pub body_length : ℕ → ℕ → ℕ → ℕ → ℕ
body_length a b c d = ((a * 2 ^ 8 + b) * 2 ^ 8 + c) * 2 ^ 8 + d

-- What `send` puts on the queue for a serialized envelope.
unfoldable pub frame : List ℕ → List ℕ
unfolding header
frame body = header (length body) ++ body

pub body_length-header :
    (size : ℕ)
    → size < 2 ^ 32
    → body_length
        (size % 2 ^ 32 / 2 ^ 24)
        (size % 2 ^ 32 / 2 ^ 16 % 2 ^ 8)
        (size % 2 ^ 32 / 2 ^ 8 % 2 ^ 8)
        (size % 2 ^ 32 % 2 ^ 8)
      ≡ size
unfolding body_length
body_length-header size h = omega arith
