-- ===== src/Transport/Writer/Drain.antt =====
-- The queue of server/src/session/Session.cpp where no write fails.
use cpp_chat_server.Prelude.{◌≡◌, refl, ap, subst, ◌∙◌, Bool, true, false, List, [], ◌∷◌, ◌++◌}
use mathlib.Core.List.{append_assoc, append-nil}
use cpp_chat_server.Transport.Writer.{
  Package, Writer, idle, is_nil, Event, sends, writes, fails, step, run, sent,
}
use cpp_chat_server.Transport.Writer.Order.{
  IsOrderly, IsUnderWay, handed, handed-sent, step-IsOrderly,
}

-- A queue that is not empty is being written.
abbrev pub IsBusy : Writer → Type 0
IsBusy w = is_nil w.in_flight ≡ is_nil w.queue

abbrev pub fails_in : List Event → Bool
fails_in [] = false
fails_in (fails ∷ l) = true
fails_in (_ ∷ l) = fails_in l

step_parts-IsBusy :
    (out f q : List Package) (e : Event)
    → is_nil f ≡ is_nil q
    → IsUnderWay f q
    → fails_in (e ∷ []) ≡ false
    → IsBusy (step (record { queue = q; in_flight = f; written = out }) e)
unfolding step
step_parts-IsBusy out [] [] (sends p) b u h = refl
step_parts-IsBusy out [] [] writes b u h = refl
step_parts-IsBusy out [] (x ∷ q) e b u h = cc
step_parts-IsBusy out (p ∷ []) (x ∷ q) (sends y) b u h = refl
step_parts-IsBusy out (p ∷ []) (x ∷ []) writes b u h = refl
step_parts-IsBusy out (p ∷ []) (x ∷ y ∷ q) writes b u h = refl
step_parts-IsBusy out (p ∷ []) [] e b u h = absurd u
step_parts-IsBusy out (p ∷ r ∷ f) q e b u h = absurd u
step_parts-IsBusy out f q fails b u h = cc

-- A writer that keeps going: orderly, and busy while something is queued.
pub record IsLive (w : Writer) (acc : List Package) : Type 0 where
  pub orderly : IsOrderly w acc
  pub busy : IsBusy w

pub run-IsLive :
    (w : Writer) (acc : List Package) (l : List Event)
    → fails_in l ≡ false
    → IsLive w acc
    → IsLive (run w l) (acc ++ sent l)
unfolding run
run-IsLive w acc [] n h = rw (append-nil acc) h
run-IsLive w acc (fails ∷ l) n h = cc
run-IsLive w acc (e ∷ l) n h =
    subst (IsLive (run (step w e) l))
      (append_assoc acc (handed e) (sent l) ∙ ap (◌++◌ acc) (handed-sent e l))
      (run-IsLive (step w e) (acc ++ handed e) l n (record {
        orderly = step-IsOrderly w acc e h.orderly;
        busy = step_parts-IsBusy w.written w.in_flight w.queue e h.busy h.orderly.one refl;
      }))

abbrev pub writes_of : List Package → List Event
writes_of [] = []
writes_of (_ ∷ l) = writes ∷ writes_of l

drain :
    (out f q acc : List Package)
    → IsLive (record { queue = q; in_flight = f; written = out }) acc
    → run (record { queue = q; in_flight = f; written = out }) (writes_of q)
      ≡ record { queue = []; in_flight = []; written = acc }
unfolding run step
drain out [] [] acc h = rw (← h.orderly.in_order, append-nil out)
drain out (p ∷ f) [] acc h = cc (h.busy)
drain out [] (x ∷ q) acc h = cc (h.busy)
drain out (p ∷ []) (x ∷ []) acc h = rw h.orderly.one (rw (← h.orderly.in_order))
drain out (p ∷ []) (x ∷ y ∷ q) acc h = drain (out ++ p ∷ []) (y ∷ []) (y ∷ q) acc (record {
  orderly = record {
    one = refl;
    in_order = rw h.orderly.one (append_assoc out (x ∷ []) (y ∷ q) ∙ h.orderly.in_order);
  };
  busy = refl;
})
drain out (p ∷ r ∷ f) (x ∷ q) acc h = absurd h.orderly.one

-- After any calls of `send` and completed writes, none of which failed, as many further
-- completions as packages are queued empty the queue, and the peer has then been sent everything
-- that was handed to `send`, in order.
pub run-drain :
    (l : List Event)
    → fails_in l ≡ false
    → run (run idle l) (writes_of (run idle l).queue)
      ≡ record { queue = []; in_flight = []; written = sent l }
run-drain l n = drain (run idle l).written (run idle l).in_flight (run idle l).queue (sent l) (
    run-IsLive idle [] l n (record { orderly = record { one = tt; in_order = refl }; busy = refl }))
