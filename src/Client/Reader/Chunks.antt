-- ===== src/Client/Reader/Chunks.antt =====
-- The reader of client/src/client.cpp, for any pieces in which the bytes arrive, against the reading of all of
-- them at once.
use cpp_chat_server.Prelude.{
  ℕ, zero, suc, ◌<◌, ◌≡◌, inl, inr, refl, ap, ◌∙◌, true, false, ◌&&◌, Option, none, some, List, [],
  ◌∷◌, ◌++◌, arith, length, length-append, split-cases, ltb, Bool-cases,
}
use cpp_chat_server.Protocol.{Envelope}
use cpp_chat_server.Transport.Frame.{body_length}
use cpp_chat_server.Transport.Reader.{
  max_body_length, Stop, waiting, failed_to_parse, Reading, deliver, read_header, read,
}
use cpp_chat_server.Transport.Reader.Rounds.{round-invalid, round-waiting, round-taken}
use cpp_chat_server.Client.State.{Client, Texts}
use cpp_chat_server.Client.Inbox.{handle_server_message}
use cpp_chat_server.Client.Reader.{
  Phase, reading_body, ended, Reader, give_up, quit, receive_byte, body_read, receive, receive_all,
  listening,
}
use cpp_chat_server.Client.Reader.Bytes.{
  joined, receive_all-joined, receive_ended, receive_short, receive_invalid, receive_header,
  receive_taken,
}

-- What a phase says of the reading.
abbrev pub stop_of : Phase → Stop
stop_of (ended stop) = stop
stop_of _ = waiting

-- The client that was given some messages, one after the other.
abbrev pub handle_all : Texts → List Envelope → Client → Client
handle_all texts [] c = c
handle_all texts (e ∷ l) c = handle_all texts l (handle_server_message texts e c)

-- The client after a reading.
abbrev pub heard : Texts → Reading Envelope → Client → Client
heard texts r c = give_up texts r.stop (handle_all texts r.messages c)

module _ (parse : List ℕ → Option Envelope) (texts : Texts) where
  pub record Agrees (r : Reader) (reading : Reading Envelope) (c : Client) : Type 0 where
    pub same_client : r.client ≡ heard texts reading c
    pub same_stop : stop_of r.phase ≡ reading.stop

  -- A body that is there, and what follows it.
  Agrees-body :
      (m : Option Envelope) (rest : List ℕ) (next : Reading Envelope) (client : Client)
      → ((c : Client) → Agrees (receive parse texts rest (listening c)) next c)
      → Agrees
          (receive parse texts rest (body_read parse texts m client))
          (deliver parse m next)
          client
  unfolding body_read deliver quit listening
  Agrees-body none rest next client h =
      rw (receive_ended parse texts rest failed_to_parse (give_up texts failed_to_parse client))
        (record { same_client = refl; same_stop = refl })
  Agrees-body (some e) rest next client h =
      let after = h (handle_server_message texts e client) in
      record { same_client = after.same_client; same_stop = after.same_stop }

  Agrees-eq :
      {r r' : Reader} {reading reading' : Reading Envelope} {c : Client}
      → r ≡ r'
      → reading ≡ reading'
      → Agrees r' reading' c
      → Agrees r reading c
  Agrees-eq e f h = rw (e, f) h

  module _ (fuel a b c d : ℕ) (l : List ℕ) (client : Client) where
    Agrees-invalid :
        (ltb 0 (body_length a b c d) && ltb (body_length a b c d) max_body_length) ≡ false
        → Agrees
            (receive parse texts (a ∷ b ∷ c ∷ d ∷ l) (listening client))
            (read_header parse (suc fuel) (a ∷ b ∷ c ∷ d ∷ l))
            client
    Agrees-invalid h =
        Agrees-eq (receive_invalid parse texts a b c d l client h)
          (round-invalid parse fuel a b c d l h)
          (unfold quit in record { same_client = refl; same_stop = refl })

    module _
        (ok : (ltb 0 (body_length a b c d) && ltb (body_length a b c d) max_body_length)
          ≡ true) where
      Agrees-waiting :
          length l < body_length a b c d
          → Agrees
              (receive parse texts (a ∷ b ∷ c ∷ d ∷ l) (listening client))
              (read_header parse (suc fuel) (a ∷ b ∷ c ∷ d ∷ l))
              client
      unfolding give_up
      Agrees-waiting short =
          Agrees-eq
            (receive_header parse texts a b c d l client ok
              ∙ receive_short parse texts (body_length a b c d) [] l client (omega arith))
            (round-waiting parse fuel a b c d ok l short)
            (record { same_client = refl; same_stop = refl })

      Agrees-taken :
          (body rest : List ℕ)
          → l ≡ body ++ rest
          → length body ≡ body_length a b c d
          → ((client : Client)
              → Agrees
                  (receive parse texts rest (listening client))
                  (read_header parse fuel rest)
                  client)
          → Agrees
              (receive parse texts (a ∷ b ∷ c ∷ d ∷ l) (listening client))
              (read_header parse (suc fuel) (a ∷ b ∷ c ∷ d ∷ l))
              client
      Agrees-taken body rest e n next =
          Agrees-eq
            (receive_header parse texts a b c d l client ok
              ∙ ap
                  (λ s.
                    receive parse texts s
                      (record { phase = reading_body (body_length a b c d) []; client = client }))
                  e
              ∙ receive_taken parse texts (body_length a b c d) body rest client (ground arith) n)
            (ap (λ s. read_header parse (suc fuel) (a ∷ b ∷ c ∷ d ∷ s)) e
              ∙ round-taken parse fuel a b c d ok body rest n)
            (Agrees-body (parse body) rest (read_header parse fuel rest) client next)

  Agrees-fuel :
      (fuel : ℕ) (stream : List ℕ) (client : Client)
      → length stream < fuel
      → Agrees
          (receive parse texts stream (listening client))
          (read_header parse fuel stream)
          client
  unfolding receive listening receive_byte read_header give_up
  Agrees-fuel zero stream client h = elim h [ ]
  Agrees-fuel (suc fuel) [] client h = record { same_client = refl; same_stop = refl }
  Agrees-fuel (suc fuel) (a ∷ []) client h = record { same_client = refl; same_stop = refl }
  Agrees-fuel (suc fuel) (a ∷ b ∷ []) client h = record { same_client = refl; same_stop = refl }
  Agrees-fuel (suc fuel) (a ∷ b ∷ c ∷ []) client h = record { same_client = refl; same_stop = refl }
  Agrees-fuel (suc fuel) (a ∷ b ∷ c ∷ d ∷ l) client h =
      elim (Bool-cases (ltb 0 (body_length a b c d) && ltb (body_length a b c d) max_body_length)) [
        | inr bad ↦ Agrees-invalid fuel a b c d l client bad
        | inl ok ↦ elim (split-cases (body_length a b c d) l) [
          | inl short ↦ Agrees-waiting fuel a b c d l client ok short
          | inr (body, rest, e, n) ↦
              Agrees-taken fuel a b c d l client ok body rest e n (λ c'.
                Agrees-fuel fuel rest c' (omega (arith, ap length e, length-append body rest)))
        ]
      ]

  -- In whatever pieces the bytes arrive, the client's reader does with them what the reading of
  -- all of them at once says: it has handled the same messages in the same order, and waits or has
  -- stopped for the same reason, with the same error printed.
  pub receive_all-Agrees :
      (chunks : List (List ℕ)) (client : Client)
      → Agrees
          (receive_all parse texts chunks (listening client))
          (read parse (joined chunks))
          client
  unfolding read
  receive_all-Agrees chunks client =
      Agrees-eq (receive_all-joined parse texts chunks (listening client)) refl
        (Agrees-fuel (suc (length (joined chunks))) (joined chunks) client (omega arith))
