-- ===== src/Transport/Writer/Order.antt =====
-- The order of the queue of server/src/session/Session.cpp.
use cpp_chat_server.Prelude.{◌≡◌, refl, ap, subst, ◌∙◌, sym, List, [], ◌∷◌, ◌++◌}
use mathlib.Core.List.{append_assoc, append-nil}
use cpp_chat_server.Transport.Writer.{Package, Writer, Event, sends, writes, fails, step, run, sent}

-- The condition between two events: one write at most is under way, it is of the front of the queue, and
-- what was handed to `send` is what was written and then what is queued, in order.
abbrev pub IsFront : Package → List Package → Type 0
IsFront p [] = ⊥
IsFront p (x ∷ _) = p ≡ x

abbrev pub IsUnderWay : List Package → List Package → Type 0
IsUnderWay [] queue = Unit
IsUnderWay (p ∷ []) queue = IsFront p queue
IsUnderWay (_ ∷ _ ∷ _) queue = ⊥

pub record IsOrderly (w : Writer) (accepted : List Package) : Type 0 where
  pub one : IsUnderWay w.in_flight w.queue
  pub in_order : w.written ++ w.queue ≡ accepted

abbrev pub handed : Event → List Package
handed (sends p) = p ∷ []
handed _ = []

push_order :
    (out q acc : List Package) (p : Package) → out ++ q ≡ acc → out ++ (q ++ p ∷ []) ≡ acc ++ p ∷ []
push_order out q acc p h = sym (append_assoc out q (p ∷ [])) ∙ ap (λ l. l ++ p ∷ []) h

pop_order :
    (out q acc : List Package) (p : Package) → out ++ p ∷ q ≡ acc → (out ++ p ∷ []) ++ q ≡ acc ++ []
pop_order out q acc p h = append_assoc out (p ∷ []) q ∙ h ∙ sym (append-nil acc)

module _ (out acc : List Package) where
  step_parts-IsOrderly :
      (f q : List Package) (e : Event)
      → IsOrderly (record { queue = q; in_flight = f; written = out }) acc
      → IsOrderly (step (record { queue = q; in_flight = f; written = out }) e) (acc ++ handed e)
  unfolding step
  step_parts-IsOrderly [] [] (sends p) h = record {
    one = refl;
    in_order = push_order out [] acc p h.in_order;
  }
  step_parts-IsOrderly [] (x ∷ q) (sends p) h = record {
    one = tt;
    in_order = push_order out (x ∷ q) acc p h.in_order;
  }
  step_parts-IsOrderly [] q writes h = record {
    one = tt;
    in_order = h.in_order ∙ sym (append-nil acc);
  }
  step_parts-IsOrderly [] q fails h = record {
    one = tt;
    in_order = h.in_order ∙ sym (append-nil acc);
  }
  step_parts-IsOrderly (p ∷ []) [] e h = absurd h.one
  step_parts-IsOrderly (p ∷ []) (x ∷ q) (sends y) h = record {
    one = h.one;
    in_order = push_order out (x ∷ q) acc y h.in_order;
  }
  step_parts-IsOrderly (p ∷ []) (x ∷ []) writes h = record {
    one = tt;
    in_order = rw h.one (pop_order out [] acc x h.in_order);
  }
  step_parts-IsOrderly (p ∷ []) (x ∷ y ∷ q) writes h = record {
    one = refl;
    in_order = rw h.one (pop_order out (y ∷ q) acc x h.in_order);
  }
  step_parts-IsOrderly (p ∷ []) (x ∷ q) fails h = record {
    one = tt;
    in_order = h.in_order ∙ sym (append-nil acc);
  }
  step_parts-IsOrderly (p ∷ r ∷ f) q e h = absurd h.one

pub step-IsOrderly :
    (w : Writer) (acc : List Package) (e : Event)
    → IsOrderly w acc
    → IsOrderly (step w e) (acc ++ handed e)
step-IsOrderly w acc e h = step_parts-IsOrderly w.written acc w.in_flight w.queue e h

pub handed-sent : (e : Event) (l : List Event) → handed e ++ sent l ≡ sent (e ∷ l)
handed-sent (sends p) l = refl
handed-sent _ l = refl

-- Whatever is handed to `send`, and however writes end: one write at most is under way, it is of
-- the front of the queue, and what was handed to `send` is, in order, what was written and then
-- what is queued.
pub run-IsOrderly :
    (w : Writer) (acc : List Package) (l : List Event)
    → IsOrderly w acc
    → IsOrderly (run w l) (acc ++ sent l)
unfolding run
run-IsOrderly w acc [] h = rw (append-nil acc) h
run-IsOrderly w acc (e ∷ l) h =
    subst (IsOrderly (run (step w e) l))
      (append_assoc acc (handed e) (sent l) ∙ ap (◌++◌ acc) (handed-sent e l))
      (run-IsOrderly (step w e) (acc ++ handed e) l (step-IsOrderly w acc e h))
