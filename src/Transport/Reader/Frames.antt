-- ===== src/Transport/Reader/Frames.antt =====
-- What the loop of server/src/session/Session.cpp that takes frames off the socket makes of a stream, as a
-- relation without fuel.
use cpp_chat_server.Prelude.{
  ℕ, zero, suc, ◌<◌, ◌≤◌, ◌≡◌, ◌⊎◌, inl, inr, refl, ap, ◌∙◌, true, false, ◌&&◌, Option, none, some,
  List, [], ◌∷◌, ◌++◌, arith, length, length-append, split-cases, ltb, Bool-cases, Option-cases,
}
use cpp_chat_server.Transport.Frame.{body_length}
use cpp_chat_server.Transport.Reader.{
  max_body_length, waiting, invalid_length, failed_to_parse, Reading, stopped, and_then, deliver,
  read_header, read,
}
use cpp_chat_server.Transport.Reader.Rounds.{round-invalid, round-waiting, round-taken}

abbrev IsAccepted : ℕ → Type 0
IsAccepted n = (0 < n) × (n < 8192)

-- `Reads parse stream r`: the stream is some frames that are parsed, which are the messages of `r`, and then
-- what stops the reader.
pub data Reads {M : Type 0} (parse : List ℕ → Option M) : List ℕ → Reading M → Type 0 where
  -- a header that is not there in full
  no_header : {stream : List ℕ} → length stream < 4 → Reads parse stream (stopped waiting)
  -- a body that is not there in full
  no_body :
      {a b c d : ℕ} {stream : List ℕ}
      → IsAccepted (body_length a b c d)
      → length stream < body_length a b c d
      → Reads parse (a ∷ b ∷ c ∷ d ∷ stream) (stopped waiting)
  bad_length :
      {a b c d : ℕ} {stream : List ℕ}
      → (body_length a b c d ≡ 0) ⊎ (8192 ≤ body_length a b c d)
      → Reads parse (a ∷ b ∷ c ∷ d ∷ stream) (stopped (invalid_length (body_length a b c d)))
  bad_body :
      {a b c d : ℕ} (body rest : List ℕ)
      → IsAccepted (body_length a b c d)
      → length body ≡ body_length a b c d
      → parse body ≡ none
      → Reads parse (a ∷ b ∷ c ∷ d ∷ (body ++ rest)) (stopped failed_to_parse)
  next :
      {a b c d : ℕ} (body rest : List ℕ) {m : M} {r : Reading M}
      → IsAccepted (body_length a b c d)
      → length body ≡ body_length a b c d
      → parse body ≡ some m
      → Reads parse rest r
      → Reads parse (a ∷ b ∷ c ∷ d ∷ (body ++ rest)) (and_then m r)

in_limits : (n : ℕ) → IsAccepted n → (ltb 0 n && ltb n max_body_length) ≡ true
in_limits n (lo, hi) = ground arith

limits_of : (n : ℕ) → (ltb 0 n && ltb n max_body_length) ≡ true → IsAccepted n
limits_of n h = ground arith

outside_of : (n : ℕ) → (ltb 0 n && ltb n max_body_length) ≡ false → (n ≡ 0) ⊎ (8192 ≤ n)
outside_of n h = ground arith

out_of_limits : (n : ℕ) → (n ≡ 0) ⊎ (8192 ≤ n) → (ltb 0 n && ltb n max_body_length) ≡ false
out_of_limits n h = ground arith

module _ {M : Type 0} (parse : List ℕ → Option M) where
  -- A body that is there.
  Reads-deliver :
      (a b c d : ℕ) (body rest : List ℕ) (r : Reading M)
      → IsAccepted (body_length a b c d)
      → length body ≡ body_length a b c d
      → Reads parse rest r
      → Reads parse (a ∷ b ∷ c ∷ d ∷ (body ++ rest)) (deliver parse (parse body) r)
  unfolding deliver
  Reads-deliver a b c d body rest r ok n h = elim (Option-cases (parse body)) [
    | inl e ↦ rw e (bad_body body rest ok n e)
    | inr (m, e) ↦ rw e (next body rest ok n e h)
  ]

  Reads-read_header :
      (fuel : ℕ) (stream : List ℕ)
      → length stream < fuel
      → Reads parse stream (read_header parse fuel stream)
  Reads-read_header zero stream h = elim h [ ]
  Reads-read_header (suc fuel) [] h = unfold read_header in no_header {stream = []} (omega arith)
  Reads-read_header (suc fuel) (a ∷ []) h =
      unfold read_header in no_header {stream = a ∷ []} (omega arith)
  Reads-read_header (suc fuel) (a ∷ b ∷ []) h =
      unfold read_header in no_header {stream = a ∷ b ∷ []} (omega arith)
  Reads-read_header (suc fuel) (a ∷ b ∷ c ∷ []) h =
      unfold read_header in no_header {stream = a ∷ b ∷ c ∷ []} (omega arith)
  Reads-read_header (suc fuel) (a ∷ b ∷ c ∷ d ∷ l) h =
      let n = body_length a b c d in
      elim (Bool-cases (ltb 0 n && ltb n max_body_length)) [
        | inr bad ↦ rw (round-invalid parse fuel a b c d l bad) (bad_length (outside_of n bad))
        | inl ok ↦ elim (split-cases n l) [
          | inl short ↦
              rw (round-waiting parse fuel a b c d ok l short) (no_body (limits_of n ok) short)
          | inr (body, rest, e, k) ↦
              rw (e, round-taken parse fuel a b c d ok body rest k)
                (Reads-deliver a b c d body rest (read_header parse fuel rest) (limits_of n ok) k (
                  Reads-read_header fuel rest
                    (omega (arith, ap length e, length-append body rest))))
        ]
      ]

  short-read_header :
      (fuel : ℕ) (stream : List ℕ)
      → length stream < 4
      → read_header parse (suc fuel) stream ≡ stopped waiting
  unfolding read_header
  short-read_header fuel [] h = refl
  short-read_header fuel (a ∷ []) h = refl
  short-read_header fuel (a ∷ b ∷ []) h = refl
  short-read_header fuel (a ∷ b ∷ c ∷ []) h = refl
  short-read_header fuel (a ∷ b ∷ c ∷ d ∷ l) h = absurd (omega arith)

  read_header_unique :
      {stream : List ℕ} {r : Reading M}
      → Reads parse stream r
      → (fuel : ℕ) → length stream < fuel
      → read_header parse fuel stream ≡ r
  unfolding deliver
  read_header_unique (no_header s) zero h = elim h [ ]
  read_header_unique (no_header s) (suc fuel) h = short-read_header fuel _ s
  read_header_unique (no_body ok s) zero h = elim h [ ]
  read_header_unique (no_body {a} {b} {c} {d} ok s) (suc fuel) h =
      round-waiting parse fuel a b c d (in_limits _ ok) _ s
  read_header_unique (bad_length out) zero h = elim h [ ]
  read_header_unique (bad_length {a} {b} {c} {d} out) (suc fuel) h =
      round-invalid parse fuel a b c d _ (out_of_limits _ out)
  read_header_unique (bad_body body rest ok n e) zero h = elim h [ ]
  read_header_unique (bad_body {a} {b} {c} {d} body rest ok n e) (suc fuel) h =
      round-taken parse fuel a b c d (in_limits _ ok) body rest n
      ∙ ap (λ m. deliver parse m (read_header parse fuel rest)) e
  read_header_unique (next body rest ok n e q) zero h = elim h [ ]
  read_header_unique (next {a} {b} {c} {d} body rest {m} {r} ok n e q) (suc fuel) h =
      round-taken parse fuel a b c d (in_limits _ ok) body rest n
      ∙ ap (λ x. deliver parse x (read_header parse fuel rest)) e
      ∙ ap (and_then m) (read_header_unique q fuel (omega (arith, length-append body rest)))

  -- On every stream the reader stops, and in exactly one way: what has arrived is some frames with
  -- lengths from 1 to 8191 whose bodies parse, which are its messages in order, and then a header
  -- or a body that is not there in full, for which it waits; or a length out of these limits, with
  -- which it stops; or a body in them that does not parse. Nothing else is read of a stream.
  pub read-Reads :
      (stream : List ℕ)
      → Reads parse stream (read parse stream)
        × ((r : Reading M) → Reads parse stream r → read parse stream ≡ r)
  unfolding read
  read-Reads stream = (
    Reads-read_header (suc (length stream)) stream (omega arith),
    λ r h. read_header_unique h (suc (length stream)) (omega arith),
  )
