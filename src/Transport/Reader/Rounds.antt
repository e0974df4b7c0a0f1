-- ===== src/Transport/Reader/Rounds.antt =====
-- The rounds of the loop of server/src/session/Session.cpp that takes frames off the socket.
use cpp_chat_server.Prelude.{
  ℕ, zero, suc, ◌<◌, ◌≤◌, ◌≡◌, ◌≢◌, true, false, ◌&&◌, Option, none, some, List, [], ◌∷◌, ◌++◌,
  arith, length, take, drop, length-append, take-append, drop-append, ltb,
}
use cpp_chat_server.Transport.Frame.{body_length}
use cpp_chat_server.Transport.Reader.{
  max_body_length, waiting, invalid_length, out_of_fuel, Reading, stopped, deliver, read_body,
  read_header, read,
}

module _ {M : Type 0} (parse : List ℕ → Option M) (fuel a b c d : ℕ) where
  -- A length that is not accepted ends the loop.
  pub round-invalid :
      (stream : List ℕ)
      → (ltb 0 (body_length a b c d) && ltb (body_length a b c d) max_body_length) ≡ false
      → read_header parse (suc fuel) (a ∷ b ∷ c ∷ d ∷ stream)
        ≡ stopped (invalid_length (body_length a b c d))
  unfolding read_header
  round-invalid stream h = ground arith

  module _
      (accepted : (ltb 0 (body_length a b c d) && ltb (body_length a b c d) max_body_length)
        ≡ true) where
    -- The body is not there yet.
    pub round-waiting :
        (stream : List ℕ)
        → length stream < body_length a b c d
        → read_header parse (suc fuel) (a ∷ b ∷ c ∷ d ∷ stream) ≡ stopped waiting
    unfolding read_header
    round-waiting stream h = ground arith

    -- The body is there.
    pub round-taken :
        (body rest : List ℕ)
        → length body ≡ body_length a b c d
        → read_header parse (suc fuel) (a ∷ b ∷ c ∷ d ∷ (body ++ rest))
          ≡ deliver parse (parse body) (read_header parse fuel rest)
    unfolding read_header
    round-taken body rest e =
        rw (← e, take-append body rest, drop-append body rest)
          (ground (arith, length-append body rest))

module _ {M : Type 0} (parse : List ℕ → Option M) where
  -- A body that is there, with what its parsing gives.
  stop-deliver :
      (m : Option M) (next : Reading M)
      → next.stop ≢ out_of_fuel
      → (deliver parse m next).stop ≢ out_of_fuel
  unfolding deliver
  stop-deliver none next h = cc
  stop-deliver (some m) next h = h

  stop-read_body :
      (n : ℕ) (stream : List ℕ) (next : Reading M)
      → next.stop ≢ out_of_fuel
      → (read_body parse n stream next).stop ≢ out_of_fuel
  unfolding read_body
  stop-read_body n stream next h = ground (arith, stop-deliver (parse (take n stream)) next h)

  length-drop : (n : ℕ) (l : List ℕ) → length (drop n l) ≤ length l
  length-drop zero l = omega arith
  length-drop (suc n) [] = omega arith
  length-drop (suc n) (x ∷ l) = omega (arith, length-drop n l)

  read_header-ends :
      (fuel : ℕ) (stream : List ℕ)
      → length stream < fuel
      → (read_header parse fuel stream).stop ≢ out_of_fuel
  unfolding read_header
  read_header-ends zero stream h = elim h [ ]
  read_header-ends (suc fuel) [] h = cc
  read_header-ends (suc fuel) (a ∷ []) h = cc
  read_header-ends (suc fuel) (a ∷ b ∷ []) h = cc
  read_header-ends (suc fuel) (a ∷ b ∷ c ∷ []) h = cc
  read_header-ends (suc fuel) (a ∷ b ∷ c ∷ d ∷ stream) h = ground (
    arith,
    stop-read_body (body_length a b c d) stream
        (read_header parse fuel (drop (body_length a b c d) stream))
        (read_header-ends fuel (drop (body_length a b c d) stream)
          (omega (arith, length-drop (body_length a b c d) stream))),
  )

  -- The length of what has arrived is fuel enough for the reader: on every stream it stops because
  -- it waits, because of a length, or because a body does not parse.
  pub read-ends : (stream : List ℕ) → (read parse stream).stop ≢ out_of_fuel
  unfolding read
  read-ends stream = read_header-ends (suc (length stream)) stream (omega arith)
