-- ===== src/Transport/Writer/Stall.antt =====
-- The queue of server/src/session/Session.cpp after a write has failed.
use cpp_chat_server.Prelude.{◌≡◌, refl, true, false, List, [], ◌∷◌}
use cpp_chat_server.Transport.Writer.{
  Package, Writer, is_nil, Event, sends, writes, fails, step, run,
}

pub record IsStalled (w : Writer) (out : List Package) : Type 0 where
  pub nothing_under_way : is_nil w.in_flight ≡ true
  pub something_queued : is_nil w.queue ≡ false
  pub as_written : w.written ≡ out

step_parts-IsStalled :
    (out old f q : List Package) (e : Event)
    → IsStalled (record { queue = q; in_flight = f; written = old }) out
    → IsStalled (step (record { queue = q; in_flight = f; written = old }) e) out
unfolding step
step_parts-IsStalled out old [] (x ∷ q) (sends p) h = record {
  nothing_under_way = refl;
  something_queued = refl;
  as_written = h.as_written;
}
step_parts-IsStalled out old [] (x ∷ q) writes h = h
step_parts-IsStalled out old [] (x ∷ q) fails h = h
step_parts-IsStalled out old (y ∷ f) q e h = cc (h.nothing_under_way)
step_parts-IsStalled out old [] [] e h = cc (h.something_queued)

-- While packages are queued and no write is under way, which is how a failed write leaves the
-- queue, nothing is ever written again, whatever is handed to `send`.
pub run-IsStalled :
    (w : Writer) (out : List Package) (l : List Event) → IsStalled w out → IsStalled (run w l) out
unfolding run
run-IsStalled w out [] h = h
run-IsStalled w out (e ∷ l) h =
    run-IsStalled (step w e) out l (step_parts-IsStalled out w.written w.in_flight w.queue e h)
