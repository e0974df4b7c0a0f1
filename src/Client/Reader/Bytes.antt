-- ===== src/Client/Reader/Bytes.antt =====
-- What the reader of client/src/client.cpp does with the bytes of a header and of a body.
use cpp_chat_server.Prelude.{
  ℕ, suc, ◌+◌, ◌<◌, ◌≡◌, refl, sym, ap, ◌∙◌, true, false, ◌&&◌, Option, List, [], ◌∷◌, ◌++◌, arith,
  length, length-append, ltb,
}
use mathlib.Core.List.{append_assoc, append-nil}
use cpp_chat_server.Protocol.{Envelope}
use cpp_chat_server.Transport.Frame.{body_length}
use cpp_chat_server.Transport.Reader.{max_body_length, Stop, invalid_length}
use cpp_chat_server.Client.State.{Client, Texts}
use cpp_chat_server.Client.Reader.{
  reading_body, ended, Reader, quit, receive_byte, body_read, receive, receive_all, listening,
}

-- The pieces, one behind the other.
abbrev pub joined : List (List ℕ) → List ℕ
joined [] = []
joined (chunk ∷ l) = chunk ++ joined l

module _ (parse : List ℕ → Option Envelope) (texts : Texts) where
  pub receive-append :
      (xs ys : List ℕ) (r : Reader)
      → receive parse texts (xs ++ ys) r ≡ receive parse texts ys (receive parse texts xs r)
  unfolding receive
  receive-append [] ys r = refl
  receive-append (x ∷ xs) ys r = receive-append xs ys _

  pub receive_all-joined :
      (chunks : List (List ℕ)) (r : Reader)
      → receive_all parse texts chunks r ≡ receive parse texts (joined chunks) r
  unfolding receive_all receive
  receive_all-joined [] r = refl
  receive_all-joined (chunk ∷ l) r =
      receive_all-joined l _ ∙ sym (receive-append chunk (joined l) r)

  pub receive_ended :
      (l : List ℕ) (stop : Stop) (c : Client)
      → receive parse texts l (record { phase = ended stop; client = c })
        ≡ record { phase = ended stop; client = c }
  unfolding receive
  receive_ended [] stop c = refl
  receive_ended (x ∷ l) stop c = receive_ended l stop c

  byte_short :
      (n : ℕ) (got : List ℕ) (x : ℕ) (c : Client)
      → length got + 1 < n
      → receive_byte parse texts x (reading_body n got) c
        ≡ record { phase = reading_body n (got ++ x ∷ []); client = c }
  unfolding receive_byte
  byte_short n got x c h = ground (arith, length-append got (x ∷ []))

  byte_full :
      (n : ℕ) (got : List ℕ) (x : ℕ) (c : Client)
      → length got + 1 ≡ n
      → receive_byte parse texts x (reading_body n got) c
        ≡ body_read parse texts (parse (got ++ x ∷ [])) c
  unfolding receive_byte
  byte_full n got x c h = ground (arith, length-append got (x ∷ []))

  -- Bytes that do not fill the body.
  pub receive_short :
      (n : ℕ) (got l : List ℕ) (c : Client)
      → length got + length l < n
      → receive parse texts l (record { phase = reading_body n got; client = c })
        ≡ record { phase = reading_body n (got ++ l); client = c }
  unfolding receive
  receive_short n got [] c h =
      ap (λ g. record { phase = reading_body n g; client = c }) (sym (append-nil got))
  receive_short n got (x ∷ l) c h =
      ap (receive parse texts l) (byte_short n got x c (omega arith))
      ∙ receive_short n (got ++ x ∷ []) l c (omega (arith, length-append got (x ∷ [])))
      ∙ ap (λ g. record { phase = reading_body n g; client = c }) (append_assoc got (x ∷ []) l)

  -- Bytes that fill it.
  receive_full :
      (n : ℕ) (got : List ℕ) (x : ℕ) (l : List ℕ) (c : Client)
      → length got + suc (length l) ≡ n
      → receive parse texts (x ∷ l) (record { phase = reading_body n got; client = c })
        ≡ body_read parse texts (parse (got ++ x ∷ l)) c
  unfolding receive
  receive_full n got x [] c h = byte_full n got x c (omega arith)
  receive_full n got x (y ∷ l) c h =
      ap (receive parse texts (y ∷ l)) (byte_short n got x c (omega arith))
      ∙ receive_full n (got ++ x ∷ []) y l c (omega (arith, length-append got (x ∷ [])))
      ∙ ap (λ g. body_read parse texts (parse g) c) (append_assoc got (x ∷ []) (y ∷ l))

  -- A header whose length is not accepted, and one whose length is.
  pub receive_invalid :
      (a b c d : ℕ) (l : List ℕ) (client : Client)
      → (ltb 0 (body_length a b c d) && ltb (body_length a b c d) max_body_length) ≡ false
      → receive parse texts (a ∷ b ∷ c ∷ d ∷ l) (listening client)
        ≡ quit parse texts (invalid_length (body_length a b c d)) client
  unfolding receive listening receive_byte quit
  receive_invalid a b c d l client h = rw h (receive_ended l _ _)

  pub receive_header :
      (a b c d : ℕ) (l : List ℕ) (client : Client)
      → (ltb 0 (body_length a b c d) && ltb (body_length a b c d) max_body_length) ≡ true
      → receive parse texts (a ∷ b ∷ c ∷ d ∷ l) (listening client)
        ≡ receive parse texts l
            (record { phase = reading_body (body_length a b c d) []; client = client })
  unfolding receive listening receive_byte
  receive_header a b c d l client h = rw h refl

  -- The bytes of a body and what follows them, from the start of the body.
  pub receive_taken :
      (n : ℕ) (body rest : List ℕ) (c : Client)
      → 0 < n
      → length body ≡ n
      → receive parse texts (body ++ rest) (record { phase = reading_body n []; client = c })
        ≡ receive parse texts rest (body_read parse texts (parse body) c)
  receive_taken n [] rest c pos h = ground arith
  receive_taken n (x ∷ l) rest c pos h =
      receive-append (x ∷ l) rest _
      ∙ ap (receive parse texts rest) (receive_full n [] x l c (omega arith))
