-- ===== src/Client/Writer.antt =====
-- send, do_write and handle_write of client/src/client.cpp, byte by byte: `async_write` hands the front of
-- the queue to the socket in pieces, and ends when all of it is taken or when it fails. Protobuf's
-- `SerializeToString` is a parameter.
pub mod Order
use cpp_chat_server.Prelude.{
  ℕ, Bool, true, false, not, Option, none, some, List, [], ◌∷◌, ◌++◌, take, drop, if◌then◌else◌,
}
use cpp_chat_server.Protocol.{Envelope}
use cpp_chat_server.Transport.Frame.{frame}

pub record Socket : Type 0 where
  -- write_queue, the oldest first
  pub write_queue : List (List ℕ)
  -- what the `async_write` of the front has not handed over
  pub under_way : Option (List ℕ)
  -- the bytes that the socket took, oldest first
  pub wire : List ℕ

abbrev pub connected : Socket
connected = record { write_queue = []; under_way = none; wire = [] }

abbrev pub is_nil {ℓ} : {A : Type ℓ} → List A → Bool
is_nil [] = true
is_nil (_ ∷ _) = false

write_front : List (List ℕ) → Socket → Socket
write_front [] w = w
write_front (p ∷ _) w = record w { under_way = some p }

pub do_write : Socket → Socket
unfolding write_front
do_write w = write_front w.write_queue w

-- What `send` posts to the socket's executor.
pub post : List ℕ → Socket → Socket
unfolding do_write
post buffer w =
    let write_in_progress = not (is_nil w.write_queue) in
    let pushed = record w { write_queue = w.write_queue ++ buffer ∷ [] } in
    if write_in_progress then pushed else do_write pushed

pop_front : List (List ℕ) → List (List ℕ)
pop_front [] = []
pop_front (_ ∷ l) = l

-- handle_write without an error
pub handle_write : Socket → Socket
unfolding do_write pop_front
handle_write w =
    let popped = record w { write_queue = pop_front w.write_queue; under_way = none } in
    if is_nil popped.write_queue then popped else do_write popped

-- handle_write with an error: nothing is popped and nothing is started.
pub handle_write_error : Socket → Socket
handle_write_error w = record w { under_way = none }

-- The socket takes up to `n` bytes of the write that is under way.
taken : ℕ → Option (List ℕ) → Socket → Socket
unfolding handle_write
taken n none w = w
taken n (some left) w =
    let fed = record w { under_way = some (drop n left); wire = w.wire ++ take n left } in
    if is_nil (drop n left) then handle_write fed else fed

pub data Event : Type 0 where
  -- a call of `send`
  sends : Envelope → Event
  takes : ℕ → Event
  fails : Event

module _ (serialize : Envelope → List ℕ) where
  pub step : Socket → Event → Socket
  unfolding post taken handle_write_error
  step w (sends e) = post (frame (serialize e)) w
  step w (takes n) = taken n w.under_way w
  step w fails = handle_write_error w

  pub run : Socket → List Event → Socket
  run w [] = w
  run w (e ∷ l) = run (step w e) l

abbrev pub sent : List Event → List Envelope
sent [] = []
sent (sends e ∷ l) = e ∷ sent l
sent (_ ∷ l) = sent l
