-- ===== src/Transport/Reader/Prefix.antt =====
-- The loop of server/src/session/Session.cpp that takes frames off the socket, while a part of them is still
-- on the way.
use cpp_chat_server.Prelude.{
  ℕ, zero, suc, ◌^◌, ◌<◌, ◌≡◌, ◌⊎◌, inl, inr, refl, ap, Option, List, [], ◌∷◌, ◌++◌, arith, length,
  length-append,
}
use cpp_chat_server.Transport.Frame.{header, body_length, frame, body_length-header}
use cpp_chat_server.Transport.Reader.{
  max_body_length, waiting, Reading, stopped, read_header, read_header-frame, read, frames, Parses,
}
use cpp_chat_server.Transport.Reader.Rounds.{round-waiting}

-- Two ways to cut a list: the first cut is in the front of the second, or behind it.
cut-cases :
    (xs ys us vs : List ℕ)
    → xs ++ ys ≡ us ++ vs
    → ((more : List ℕ) × (xs ++ more ≡ us) × (length xs < length us))
      ⊎ ((tail : List ℕ) × (xs ≡ us ++ tail) × (tail ++ ys ≡ vs))
cut-cases xs ys [] vs e = inr (xs, refl, e)
cut-cases [] ys (u ∷ us) vs e = inl (u ∷ us, refl, omega arith)
cut-cases (x ∷ xs) ys (u ∷ us) vs e = elim (cut-cases xs ys us vs (cc e)) [
  | inl (more, m, l) ↦ inl (more, cc, omega arith)
  | inr (tail, t, r) ↦ inr (tail, cc, r)
]

-- The length that the first four bytes of a frame spell.
body_length-frame :
    (a b c d : ℕ) (w more body : List ℕ)
    → (a ∷ b ∷ c ∷ d ∷ w) ++ more ≡ frame body
    → length body < 2 ^ 32
    → body_length a b c d ≡ length body
unfolding frame header
body_length-frame a b c d w more body e h = cc (e, body_length-header (length body) h)

-- Behind a frame, less is left.
shorter :
    {fuel : ℕ} (wire body tail : List ℕ)
    → wire ≡ frame body ++ tail
    → length wire < suc fuel
    → length tail < fuel
unfolding frame header
shorter wire body tail e h = omega (arith, ap length e, length-append (frame body) tail)

module _ {M : Type 0} (parse : List ℕ → Option M) where
  -- A frame that is not there in full.
  read_header-partial :
      (fuel : ℕ) (wire more body : List ℕ)
      → wire ++ more ≡ frame body
      → length wire < length (frame body)
      → 0 < length body
      → length body < max_body_length
      → read_header parse (suc fuel) wire ≡ stopped waiting
  unfolding read_header frame header
  read_header-partial fuel [] more body e s lo hi = refl
  read_header-partial fuel (a ∷ []) more body e s lo hi = refl
  read_header-partial fuel (a ∷ b ∷ []) more body e s lo hi = refl
  read_header-partial fuel (a ∷ b ∷ c ∷ []) more body e s lo hi = refl
  read_header-partial fuel (a ∷ b ∷ c ∷ d ∷ w) more body e s lo hi =
      let n = body_length-frame a b c d w more body e (omega arith) in
      round-waiting parse fuel a b c d (rw n (ground arith)) w (omega (arith, n))

  -- What is read of the first bytes of some frames.
  abbrev pub IsFront : Reading M → List M → Type 0
  IsFront r ms = (r.stop ≡ waiting) × ((later : List M) × (r.messages ++ later ≡ ms))

  read_header-prefix :
      (fuel : ℕ) (bodies : List (List ℕ)) (ms : List M) (wire rest : List ℕ)
      → length wire < fuel
      → Parses parse bodies ms
      → wire ++ rest ≡ frames bodies
      → IsFront (read_header parse fuel wire) ms
  read_header-prefix zero bodies ms wire rest h p e = elim h [ ]
  read_header-prefix (suc fuel) [] [] [] rest h p e = unfold read_header in (refl, ([], refl))
  read_header-prefix (suc fuel) [] [] (x ∷ wire) rest h p e = cc
  read_header-prefix (suc fuel) [] (m ∷ ms) wire rest h p e = absurd p
  read_header-prefix (suc fuel) (b ∷ l) [] wire rest h p e = absurd p
  read_header-prefix (suc fuel) (b ∷ l) (m ∷ ms) wire rest h (lo, hi, parsed, p) e =
      elim (cut-cases wire rest (frame b) (frames l) e) [
        | inl (more, f, short) ↦
            rw (read_header-partial fuel wire more b f short lo hi) (refl, (m ∷ ms, refl))
        | inr (tail, f, r) ↦
            let (waits, (later, k)) =
              read_header-prefix fuel l ms tail rest (shorter wire b tail f h) p r in
            rw (f, read_header-frame parse fuel b tail m lo hi parsed)
              (waits, (later, ap (◌∷◌ m) k))
      ]

  pub read-prefix :
      (bodies : List (List ℕ)) (ms : List M) (wire rest : List ℕ)
      → Parses parse bodies ms
      → wire ++ rest ≡ frames bodies
      → IsFront (read parse wire) ms
  unfolding read
  read-prefix bodies ms wire rest p e =
      read_header-prefix (suc (length wire)) bodies ms wire rest (omega arith) p e
