-- ===== src/Client/Writer/Order.antt =====
-- The bytes that a client of client/src/client.cpp writes, and what the reader of
-- server/src/session/Session.cpp makes of them.
use cpp_chat_server.Prelude.{
  ℕ, zero, suc, ◌≡◌, refl, ap, sym, ◌∙◌, subst, Option, none, some, List, [], ◌∷◌, ◌++◌, map, take,
  drop, if◌then◌else◌,
}
use mathlib.Core.List.{append_assoc, append-nil}
use cpp_chat_server.Protocol.{Envelope}
use cpp_chat_server.Transport.Frame.{frame}
use cpp_chat_server.Transport.Reader.{read, frames, Parses}
use cpp_chat_server.Transport.Reader.Prefix.{IsFront, read-prefix}
use cpp_chat_server.Client.Writer.{
  Socket, connected, is_nil, handle_write, Event, sends, takes, fails, step, run, sent,
}

-- The packages of a queue, one behind the other.
abbrev flat : List (List ℕ) → List ℕ
flat [] = []
flat (p ∷ q) = p ++ flat q

-- What has been taken, and what the queue still holds of it: all of the rest, unless a write failed.
abbrev Flows : List ℕ → List (List ℕ) → Option (List ℕ) → List ℕ → Type 0
Flows wire [] none total = wire ≡ total
Flows wire [] (some left) total = ⊥
Flows wire (_ ∷ q) (some left) total = wire ++ (left ++ flat q) ≡ total
Flows wire (_ ∷ q) none total = (rest : List ℕ) × (wire ++ rest ≡ total)

abbrev pub IsFlowing : Socket → List ℕ → Type 0
IsFlowing w total = Flows w.wire w.write_queue w.under_way total

take-drop : (n : ℕ) (l : List ℕ) → take n l ++ drop n l ≡ l
take-drop zero l = refl
take-drop (suc n) [] = refl
take-drop (suc n) (x ∷ l) = ap (◌∷◌ x) (take-drop n l)

flat-push : (q : List (List ℕ)) (p : List ℕ) → flat (q ++ p ∷ []) ≡ flat q ++ p
flat-push [] p = append-nil p
flat-push (x ∷ q) p = ap (◌++◌ x) (flat-push q p) ∙ sym (append_assoc x (flat q) p)

module _ (serialize : Envelope → List ℕ) where
  abbrev handed : Event → List ℕ
  handed (sends e) = frame (serialize e)
  handed _ = []

  -- The socket has taken a piece of the front, of which `left` is not handed over.
  piece-IsFlowing :
      (wire p left : List ℕ) (q : List (List ℕ)) (total : List ℕ)
      → wire ++ (left ++ flat q) ≡ total
      → IsFlowing
          (if is_nil left
            then handle_write (record { write_queue = p ∷ q; under_way = some left; wire = wire })
            else record { write_queue = p ∷ q; under_way = some left; wire = wire })
          total
  unfolding handle_write
  piece-IsFlowing wire p [] [] total h = sym (append-nil wire) ∙ h
  piece-IsFlowing wire p [] (x ∷ q) total h = h
  piece-IsFlowing wire p (b ∷ left) q total h = h

  parts-IsFlowing :
      (wire : List ℕ) (q : List (List ℕ)) (u : Option (List ℕ)) (total : List ℕ) (e : Event)
      → Flows wire q u total
      → IsFlowing
          (step serialize (record { write_queue = q; under_way = u; wire = wire }) e)
          (total ++ handed e)
  unfolding step
  parts-IsFlowing wire [] none total (sends e) h =
      ap (◌++◌ wire) (append-nil (frame (serialize e))) ∙ ap (λ l. l ++ frame (serialize e)) h
  parts-IsFlowing wire [] none total (takes n) h = h ∙ sym (append-nil total)
  parts-IsFlowing wire [] none total fails h = h ∙ sym (append-nil total)
  parts-IsFlowing wire [] (some left) total e h = absurd h
  parts-IsFlowing wire (p ∷ q) none total (sends e) (rest, h) = (
    rest ++ frame (serialize e),
    sym (append_assoc wire rest _) ∙ ap (λ l. l ++ frame (serialize e)) h,
  )
  parts-IsFlowing wire (p ∷ q) none total (takes n) (rest, h) = (rest, h ∙ sym (append-nil total))
  parts-IsFlowing wire (p ∷ q) none total fails (rest, h) = (rest, h ∙ sym (append-nil total))
  parts-IsFlowing wire (p ∷ q) (some left) total (sends e) h =
      ap (λ l. wire ++ (left ++ l)) (flat-push q (frame (serialize e)))
      ∙ ap (◌++◌ wire) (sym (append_assoc left (flat q) (frame (serialize e))))
      ∙ sym (append_assoc wire (left ++ flat q) (frame (serialize e)))
      ∙ ap (λ l. l ++ frame (serialize e)) h
  parts-IsFlowing wire (p ∷ q) (some left) total (takes n) h =
      piece-IsFlowing (wire ++ take n left) p (drop n left) q (total ++ []) (
        append_assoc wire (take n left) (drop n left ++ flat q)
        ∙ ap (◌++◌ wire) (sym (append_assoc (take n left) (drop n left) (flat q)))
        ∙ ap (λ l. wire ++ (l ++ flat q)) (take-drop n left)
        ∙ h
        ∙ sym (append-nil total))
  parts-IsFlowing wire (p ∷ q) (some left) total fails h =
      (left ++ flat q, h ∙ sym (append-nil total))

  step-IsFlowing :
      (w : Socket) (total : List ℕ) (e : Event)
      → IsFlowing w total
      → IsFlowing (step serialize w e) (total ++ handed e)
  step-IsFlowing w total e h = parts-IsFlowing w.wire w.write_queue w.under_way total e h

  handed-frames :
      (e : Event) (l : List Event)
      → handed e ++ frames (map serialize (sent l)) ≡ frames (map serialize (sent (e ∷ l)))
  handed-frames (sends e) l = refl
  handed-frames (takes n) l = refl
  handed-frames fails l = refl

  run-IsFlowing :
      (w : Socket) (total : List ℕ) (l : List Event)
      → IsFlowing w total
      → IsFlowing (run serialize w l) (total ++ frames (map serialize (sent l)))
  unfolding run
  run-IsFlowing w total [] h = rw (append-nil total) h
  run-IsFlowing w total (e ∷ l) h =
      subst (IsFlowing (run serialize (step serialize w e) l))
        (append_assoc total (handed e) _ ∙ ap (◌++◌ total) (handed-frames e l))
        (run-IsFlowing (step serialize w e) (total ++ handed e) l (step-IsFlowing w total e h))

  rest_of :
      (wire : List ℕ) (q : List (List ℕ)) (u : Option (List ℕ)) (total : List ℕ)
      → Flows wire q u total
      → (rest : List ℕ) × (wire ++ rest ≡ total)
  rest_of wire [] none total h = ([], append-nil wire ∙ h)
  rest_of wire [] (some left) total h = absurd h
  rest_of wire (p ∷ q) none total h = h
  rest_of wire (p ∷ q) (some left) total h = (left ++ flat q, h)

  pub wire-prefix :
      (l : List Event)
      → (rest : List ℕ) × ((run serialize connected l).wire ++ rest
          ≡ frames (map serialize (sent l)))
  wire-prefix l =
      let w = run serialize connected l in
      rest_of w.wire w.write_queue w.under_way (frames (map serialize (sent l)))
        (run-IsFlowing connected [] l refl)

  module _ (parse : List ℕ → Option Envelope) where
    pub read-wire :
        (l : List Event)
        → Parses parse (map serialize (sent l)) (sent l)
        → IsFront parse (read parse (run serialize connected l).wire) (sent l)
    read-wire l h =
        let (rest, e) = wire-prefix l in
        read-prefix parse (map serialize (sent l)) (sent l) (run serialize connected l).wire rest h
          e
