-- ===== src/Transport/Writer.antt =====
-- send, do_write and handle_write of server/src/session/Session.cpp: the queue of frames and the writes
-- on the socket. Each event is one function that runs on the session's strand.
pub mod Order
pub mod Drain
pub mod Stall
use cpp_chat_server.Prelude.{
  ℕ, ◌≡◌, refl, ap, subst, ◌∙◌, sym, Bool, true, false, not, List, [], ◌∷◌, ◌++◌, if◌then◌else◌,
}
use mathlib.Core.List.{append_assoc, append-nil}

abbrev pub Package : Type 0
Package = List ℕ

pub record Writer : Type 0 where
  -- message_queue, the oldest first
  pub queue : List Package
  -- the buffers of the `async_write`s that have not completed
  pub in_flight : List Package
  -- what the peer has been sent, write by write
  pub written : List Package

abbrev pub idle : Writer
idle = record { queue = []; in_flight = []; written = [] }

-- do_write takes the front of the queue, and does not take it off.
do_write_front : List Package → Writer → Writer
do_write_front [] w = w
do_write_front (p ∷ _) w = record w { in_flight = w.in_flight ++ p ∷ [] }

pub do_write : Writer → Writer
unfolding do_write_front
do_write w = do_write_front w.queue w

abbrev pub is_nil : List Package → Bool
is_nil [] = true
is_nil (_ ∷ _) = false

-- What `send` posts to the strand.
pub post : Package → Writer → Writer
unfolding do_write
post p w =
    let write_in_progress = not (is_nil w.queue) in
    let pushed = record w { queue = w.queue ++ p ∷ [] } in
    if write_in_progress then pushed else do_write pushed

tail : List Package → List Package
tail [] = []
tail (_ ∷ l) = l

-- handle_write without an error, for the oldest write in flight.
completed : List Package → Writer → Writer
unfolding do_write tail
completed [] w = w
completed (p ∷ l) w =
    let popped : Writer = record {
      queue = tail w.queue;
      in_flight = l;
      written = w.written ++ p ∷ [];
    } in
    if is_nil popped.queue then popped else do_write popped

pub handle_write : Writer → Writer
unfolding completed
handle_write w = completed w.in_flight w

-- handle_write with an error: nothing is popped and nothing is started.
pub handle_write_error : Writer → Writer
unfolding tail
handle_write_error w = record w { in_flight = tail w.in_flight }

pub data Event : Type 0 where
  sends : Package → Event
  writes : Event
  fails : Event

pub step : Writer → Event → Writer
unfolding post handle_write handle_write_error
step w (sends p) = post p w
step w writes = handle_write w
step w fails = handle_write_error w

pub run : Writer → List Event → Writer
run w [] = w
run w (e ∷ l) = run (step w e) l

abbrev pub sent : List Event → List Package
sent [] = []
sent (sends p ∷ l) = p ∷ sent l
sent (_ ∷ l) = sent l
