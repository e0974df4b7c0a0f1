-- ===== src/Client/Reader.antt =====
-- do_read_header and do_read_body of client/src/client.cpp, as the bytes arrive: an `async_read` fills its
-- buffer and then completes, whatever the pieces are in which the network delivers. Protobuf's
-- `ParseFromArray` is a parameter.
pub mod Bytes
pub mod Chunks
use cpp_chat_server.Prelude.{
  ℕ, pos, String, Bool, ◌&&◌, Option, none, some, List, [], ◌∷◌, ◌++◌, length, ltb, leb,
  if◌then◌else◌, concat, to_string,
}
use cpp_chat_server.Protocol.{Envelope}
use cpp_chat_server.Transport.Errors.{success}
use cpp_chat_server.Transport.Frame.{body_length}
use cpp_chat_server.Transport.Reader.{
  max_body_length, Stop, waiting, invalid_length, failed_to_parse,
}
use cpp_chat_server.Client.State.{err, Client, Texts, print, handle_error}
use cpp_chat_server.Client.Inbox.{handle_server_message}

-- Which `async_read` is waiting, and what its buffer holds so far.
pub data Phase : Type 0 where
  reading_header : List ℕ → Phase
  reading_body : (n : ℕ) → List ℕ → Phase
  -- none is, for a reason that is not `waiting`
  ended : Stop → Phase

pub record Reader : Type 0 where
  pub phase : Phase
  pub client : Client

-- The client that stops reading, by what it prints.
unfoldable pub give_up : Texts → Stop → Client → Client
unfolding print handle_error
give_up texts (invalid_length n) c =
    handle_error texts "Invalid length" success
      (print (err (concat ("Invalid body length received: " ∷ to_string (pos n) ∷ []))) c)
give_up texts failed_to_parse c =
    handle_error texts "Failed to parse" success (print (err "Failed to parse message body.") c)
give_up texts _ c = c

module _ (parse : List ℕ → Option Envelope) (texts : Texts) where
  -- do_read_header
  do_read_header : Client → Reader
  do_read_header c = record { phase = reading_header []; client = c }

  pub quit : Stop → Client → Reader
  unfolding give_up
  quit stop c = record { phase = ended stop; client = give_up texts stop c }

  -- The completion of the read of a header, `do_read_body` with it.
  header_read : List ℕ → Client → Reader
  unfolding quit body_length
  header_read (a ∷ b ∷ c ∷ d ∷ []) client =
      let n = body_length a b c d in
      if ltb 0 n && ltb n max_body_length
      then record { phase = reading_body n []; client = client }
      else quit (invalid_length n) client
  header_read got client = record { phase = reading_header got; client = client }

  -- The completion of the read of a body.
  pub body_read : Option Envelope → Client → Reader
  unfolding do_read_header quit handle_server_message
  body_read none client = quit failed_to_parse client
  body_read (some e) client = do_read_header (handle_server_message texts e client)

  -- One more byte.
  receive_byte : ℕ → Phase → Client → Reader
  unfolding header_read body_read
  receive_byte byte (reading_header got) client = header_read (got ++ byte ∷ []) client
  receive_byte byte (reading_body n got) client =
      let filled = body_read (parse (got ++ byte ∷ [])) client in
      if leb n (length (got ++ byte ∷ []))
      then filled
      else record { phase = reading_body n (got ++ byte ∷ []); client = client }
  receive_byte byte (ended stop) client = record { phase = ended stop; client = client }

  unfoldable pub receive : List ℕ → Reader → Reader
  unfolding receive_byte
  receive [] r = r
  receive (byte ∷ l) r = receive l (receive_byte byte r.phase r.client)

  -- What arrives, in the pieces in which it arrives.
  unfoldable pub receive_all : List (List ℕ) → Reader → Reader
  unfolding receive
  receive_all [] r = r
  receive_all (chunk ∷ l) r = receive_all l (receive chunk r)

-- A connection that has just been made.
unfoldable pub listening : Client → Reader
listening c = record { phase = reading_header []; client = c }
