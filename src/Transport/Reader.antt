-- ===== src/Transport/Reader.antt =====
-- do_read_header and do_read_body of server/src/session/Session.cpp: the loop that takes frames off the
-- socket. `async_read` completes when its buffer is full; what has arrived since the last complete read
-- stays in the stream.
pub mod Rounds
pub mod Prefix
pub mod Frames
use cpp_chat_server.Prelude.{
  ℕ, zero, suc, ◌^◌, ◌<◌, ◌≤◌, ◌≡◌, ◌⊎◌, refl, ap, ◌∙◌, Bool, ◌&&◌, Option, none, some, List, [],
  ◌∷◌, ◌++◌, arith, length, take, drop, length-append, take-append, drop-append, ltb, leb,
  if◌then◌else◌,
}
use cpp_chat_server.Transport.Frame.{body_length, frame, body_length-header}

abbrev pub max_body_length : ℕ
max_body_length = 8192

-- Why the reader stopped.
pub data Stop : Type 0 where
  -- an `async_read` is still waiting for the rest of a header or of a body
  waiting : Stop
  -- handle_error("Invalid length", …)
  invalid_length : ℕ → Stop
  -- handle_error("Failed to parse", …)
  failed_to_parse : Stop
  out_of_fuel : Stop

-- What the reader gave to `onMessage`, oldest first, and why it stopped.
pub record Reading (M : Type 0) : Type 0 where
  pub messages : List M
  pub stop : Stop

abbrev pub stopped : {M : Type 0} → Stop → Reading M
stopped stop = record { messages = []; stop = stop }

abbrev pub and_then : {M : Type 0} → M → Reading M → Reading M
and_then m r = record { messages = m ∷ r.messages; stop = r.stop }

module _ {M : Type 0} (parse : List ℕ → Option M) where
  -- `next` is the reader at the header behind the body.
  unfoldable pub deliver : Option M → Reading M → Reading M
  deliver none next = stopped failed_to_parse
  deliver (some m) next = and_then m next

  -- A body of `n` bytes is there, or the read of it waits.
  read_body : ℕ → List ℕ → Reading M → Reading M
  unfolding deliver
  read_body n stream next =
      if leb n (length stream) then deliver (parse (take n stream)) next else stopped waiting

  accepted : ℕ → Bool
  accepted n = ltb 0 n && ltb n max_body_length

  -- One round of the loop takes at least five bytes, so the length of the stream is fuel enough.
  unfoldable pub read_header : ℕ → List ℕ → Reading M
  unfolding read_body accepted
  read_header zero stream = stopped out_of_fuel
  read_header (suc fuel) (a ∷ b ∷ c ∷ d ∷ stream) =
      let n = body_length a b c d in
      let next = read_header fuel (drop n stream) in
      if accepted n then read_body n stream next else stopped (invalid_length n)
  read_header (suc fuel) _ = stopped waiting

  -- The reader on what has arrived.
  unfoldable pub read : List ℕ → Reading M
  unfolding read_header
  read stream = read_header (suc (length stream)) stream

-- The frames of a list of bodies, as they stand one behind the other on the socket.
abbrev pub frames : List (List ℕ) → List ℕ
frames [] = []
frames (b ∷ l) = frame b ++ frames l

module _ {M : Type 0} (parse : List ℕ → Option M) where
  -- A frame in front is read as its message.
  pub read_header-frame :
      (fuel : ℕ) (body rest : List ℕ) (m : M)
      → 0 < length body
      → length body < max_body_length
      → parse body ≡ some m
      → read_header parse (suc fuel) (frame body ++ rest) ≡ and_then m (read_header parse fuel rest)
  unfolding read_header frame
  read_header-frame fuel body rest m lo hi p =
      rw
        (
          body_length-header (length body) (omega arith),
          take-append body rest,
          drop-append body rest,
          p,
        )
        (ground (arith, length-append body rest))

  -- Every body in its limits, and parsed to the message at its place.
  abbrev pub Parses : List (List ℕ) → List M → Type 0
  Parses [] [] = Unit
  Parses (b ∷ l) (m ∷ ms) =
      (0 < length b) × (length b < max_body_length) × (parse b ≡ some m) × Parses l ms
  Parses _ _ = ⊥

  read_header-frames :
      (fuel : ℕ) (bodies : List (List ℕ)) (ms : List M)
      → length bodies < fuel
      → Parses bodies ms
      → read_header parse fuel (frames bodies) ≡ record { messages = ms; stop = waiting }
  read_header-frames zero bodies ms h p = elim h [ ]
  read_header-frames (suc fuel) [] [] h p = unfold read_header in refl
  read_header-frames (suc fuel) [] (m ∷ ms) h p = absurd p
  read_header-frames (suc fuel) (b ∷ l) [] h p = absurd p
  read_header-frames (suc fuel) (b ∷ l) (m ∷ ms) h p =
      read_header-frame fuel b (frames l) m p.0 p.1 p.2
      ∙ ap (and_then m) (read_header-frames fuel l ms (omega arith) p.3)

  length-frames : (bodies : List (List ℕ)) → length bodies ≤ length (frames bodies)
  unfolding frame
  length-frames [] = omega arith
  length-frames (b ∷ l) = omega (arith, length-append (frame b) (frames l), length-frames l)

  -- Frames written one behind the other, each with a body of at least one byte and less than 8192
  -- that parses, are read as the messages in them, in order, and the reader then waits for the
  -- next header: no frame is cut, joined or lost.
  pub read-frames :
      (bodies : List (List ℕ)) (ms : List M)
      → Parses bodies ms
      → read parse (frames bodies) ≡ record { messages = ms; stop = waiting }
  unfolding read
  read-frames bodies ms p =
      read_header-frames (suc (length (frames bodies))) bodies ms
        (omega (arith, length-frames bodies)) p

  -- A frame as `send` writes it whose body is empty, or has 8192 bytes or more but less than 2^32,
  -- ends the reading with an invalid length: no message is taken from it, nor from what follows
  -- it.
  pub read-oversized :
      (body rest : List ℕ)
      → length body < 2 ^ 32
      → (length body ≡ 0) ⊎ (max_body_length ≤ length body)
      → read parse (frame body ++ rest)
        ≡ record { messages = []; stop = invalid_length (length body) }
  unfolding read read_header frame
  read-oversized body rest fits out = rw (body_length-header (length body) fits) (ground arith)
