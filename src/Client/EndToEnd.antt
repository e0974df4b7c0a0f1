-- ===== src/Client/EndToEnd.antt =====
-- From the keyboard of client/src/main.cpp, through the queue of client/src/client.cpp, to the reader of
-- server/src/session/Session.cpp.
use cpp_chat_server.Prelude.{
  ℕ, ◌≡◌, refl, sym, ap, ◌∙◌, subst, false, Option, List, [], ◌∷◌, ◌++◌, map,
}
use cpp_chat_server.Protocol.{Payload, Envelope, envelope}
use cpp_chat_server.Transport.Frame.{frame}
use cpp_chat_server.Transport.Reader.{read, frames, Parses, read-frames}
use cpp_chat_server.Transport.Writer as Server
use cpp_chat_server.Transport.Writer.Drain.{fails_in, writes_of, run-drain}
use cpp_chat_server.Transport.Reader.Prefix.{IsFront}
use cpp_chat_server.Client.State.{Client, Texts, new_client}
use cpp_chat_server.Client.Commands.RoundTrip.{line_of}
use cpp_chat_server.Client.Input.{handle_user_input}
use cpp_chat_server.Client.Input.Typing.{AreTypable, sent-handle_user_input}
use cpp_chat_server.Client.Reader.{give_up, receive_all, listening}
use cpp_chat_server.Client.Reader.Bytes.{joined}
use cpp_chat_server.Client.Reader.Chunks.{handle_all, heard, receive_all-Agrees}
use cpp_chat_server.Client.Writer.{connected, Event, run, sent}
use cpp_chat_server.Client.Writer.Order.{read-wire}

module _ (serialize : Envelope → List ℕ) (parse : List ℕ → Option Envelope) where
  -- Let a user type the lines of requests that can be typed while the client is in no room, let
  -- each be serialized to at least one byte and less than 8192 and parsed back, and let the
  -- client's socket, after any calls of `send` for just these envelopes, in order, take the bytes
  -- in any pieces and fail at any time. Then the server's reader, on the bytes that arrived, has
  -- read a front of those requests, in order, and waits for more.
  pub typed-read :
      (ps : List Payload) (l : List Event)
      → AreTypable "" ps
      → sent l ≡ (handle_user_input (map line_of ps) new_client).sent
      → Parses parse (map serialize (map envelope ps)) (map envelope ps)
      → IsFront parse (read parse (run serialize connected l).wire) (map envelope ps)
  typed-read ps l typable same h =
      let e : sent l ≡ map envelope ps = same ∙ sent-handle_user_input ps new_client typable in
      subst (IsFront parse (read parse (run serialize connected l).wire)) e
        (read-wire serialize parse l (subst (λ es. Parses parse (map serialize es) es) (sym e) h))

-- Packages, one behind the other.
abbrev pub flat : List (List ℕ) → List ℕ
flat [] = []
flat (p ∷ l) = p ++ flat l

flat-frames : (bodies : List (List ℕ)) → flat (map frame bodies) ≡ frames bodies
flat-frames [] = refl
flat-frames (b ∷ l) = ap (◌++◌ (frame b)) (flat-frames l)

-- The server's writes to one connection, until its queue is empty.
abbrev pub drained : List Server.Event → Server.Writer
drained l = let w = Server.run Server.idle l in Server.run w (writes_of w.queue)

module _ (serialize : Envelope → List ℕ) (parse : List ℕ → Option Envelope) (texts : Texts) where
  heard-frames :
      (es : List Envelope) (chunks : List (List ℕ)) (c : Client)
      → joined chunks ≡ frames (map serialize es)
      → Parses parse (map serialize es) es
      → (receive_all parse texts chunks (listening c)).client ≡ handle_all texts es c
  unfolding give_up
  heard-frames es chunks c j p =
      (receive_all-Agrees parse texts chunks c).same_client
      ∙ ap (λ r. heard texts r c) (ap (read parse) j ∙ read-frames parse (map serialize es) es p)

  -- Let the server hand some envelopes to `send` for a connection, each serialized to at least one
  -- byte and less than 8192 and parsed back, and let no write fail and all packages be written.
  -- Then a client that is given the bytes, in whatever pieces, ends as one that was given these
  -- envelopes, each once and in that order.
  pub sent-heard :
      (l : List Server.Event) (es : List Envelope) (chunks : List (List ℕ)) (c : Client)
      → fails_in l ≡ false
      → Server.sent l ≡ map frame (map serialize es)
      → joined chunks ≡ flat (drained l).written
      → Parses parse (map serialize es) es
      → (receive_all parse texts chunks (listening c)).client ≡ handle_all texts es c
  sent-heard l es chunks c ok s j p =
      heard-frames es chunks c
        (j
          ∙ ap flat (ap (λ (w : Server.Writer). w.written) (run-drain l ok) ∙ s)
          ∙ flat-frames (map serialize es))
        p
