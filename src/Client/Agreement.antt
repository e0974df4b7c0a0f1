-- ===== src/Client/Agreement.antt =====
-- currentRoom of client/src/client.h against userToRoomMap of server/src/service/RoomService.h: a client
-- that has handled everything that the server sent to its session.
pub mod Operations
pub mod Others
pub mod Histories
use cpp_chat_server.Prelude.{
  ℤ, ℕ, String, ◌≡◌, ◌≢◌, refl, ap, sym, ◌∙◌, Bool, true, false, Option, none, some, List, [], ◌∷◌,
  ◌++◌, map, arith, ◌==◌, if◌then◌else◌, nat_eq, int_eq, string_eq, eq_iff, int_beq_iff,
  nat_beq_iff, concat, Option-cases, inl, inr,
}
use cpp_chat_server.Protocol.{
  RoomOperation, join, leave, create, unrecognized, Envelope, envelope, Payload,
  room_operation_response, history_message_response, UserEventType, user_joined, user_left,
}
use cpp_chat_server.Domain.{Room, default_room}
use cpp_chat_server.Repository.{Repositories}
use cpp_chat_server.Map.{get}
use cpp_chat_server.Rooms.{Rooms, current_room_name, step, joins, leaves, creates}
use cpp_chat_server.Rooms.Membership.{
  is_mapped_to, room_of-join_room, room_of-leave_room, room_of-create_room,
}
use cpp_chat_server.World.{World}
use cpp_chat_server.RoomService.{
  handle_room_operation, joined, left, notice, room_response, recipients, members_of,
}
use cpp_chat_server.Client.State.{Line, out, Client, Texts, print, print_all}
use cpp_chat_server.Client.Inbox.{message_text, follow, handle_payload, handle_server_message}

-- A client on the session `s` that handles its part of what the server sent.
abbrev pub hears : Texts → ℕ → List (ℕ × Envelope) → Client → Client
hears texts s [] c = c
hears texts s ((t, e) ∷ l) c =
    hears texts s l (if t == s then handle_server_message texts e c else c)

-- What an answer makes of the room that is shown.
unfoldable pub followed : RoomOperation → Bool → String → String → String
followed join true room shown = room
followed create _ room shown = room
followed leave true room shown = ""
followed _ _ room shown = shown

shown_after : Payload → String → String
unfolding followed
shown_after (room_operation_response r) shown = followed r.operation r.success r.room_name shown
shown_after _ shown = shown

current_room-print_all :
    (l : List Line) (c : Client) → (print_all l c).current_room ≡ c.current_room
unfolding print_all print
current_room-print_all [] c = refl
current_room-print_all (line ∷ l) c = current_room-print_all l _

current_room-follow :
    (op : RoomOperation) (success : Bool) (room : String) (c : Client)
    → (follow op success room c).current_room ≡ followed op success room c.current_room
unfolding follow followed
current_room-follow join true room c = refl
current_room-follow join false room c = refl
current_room-follow create _ room c = refl
current_room-follow leave true room c = refl
current_room-follow leave false room c = refl
current_room-follow (unrecognized n) _ room c = refl

current_room-handle :
    (texts : Texts) (p : Payload) (c : Client)
    → (handle_payload texts p c).current_room ≡ shown_after p c.current_room
unfolding handle_payload shown_after print
current_room-handle texts (room_operation_response r) c =
    current_room-follow r.operation r.success r.room_name c
current_room-handle texts (history_message_response _ messages) c =
    current_room-print_all (map (λ m. out (message_text texts "  " m)) messages) _
current_room-handle texts _ c = refl

-- The room that is shown after what the server sent.
pub shown : ℕ → List (ℕ × Envelope) → String → String
shown s [] room = room
shown s ((t, e) ∷ l) room = shown s l (if t == s then shown_after e.payload room else room)

current_room-heard :
    (texts : Texts) (e : Envelope) (b : Bool) (c : Client)
    → (if b then handle_server_message texts e c else c).current_room
      ≡ (if b then shown_after e.payload c.current_room else c.current_room)
unfolding handle_server_message
current_room-heard texts e true c = current_room-handle texts e.payload c
current_room-heard texts e false c = refl

pub current_room-hears :
    (texts : Texts) (s : ℕ) (l : List (ℕ × Envelope)) (c : Client)
    → (hears texts s l c).current_room ≡ shown s l c.current_room
unfolding shown
current_room-hears texts s [] c = refl
current_room-hears texts s ((t, e) ∷ l) c =
    current_room-hears texts s l _ ∙ ap (shown s l) (current_room-heard texts e (t == s) c)

pub shown-append :
    (s : ℕ) (l m : List (ℕ × Envelope)) (room : String)
    → shown s (l ++ m) room ≡ shown s m (shown s l room)
unfolding shown
shown-append s [] m room = refl
shown-append s (x ∷ l) m room = shown-append s l m _

if_same : (b : Bool) (room : String) → (if b then room else room) ≡ room
if_same true room = refl
if_same false room = refl

shown-notices :
    (s : ℕ) (l : List ℕ) (event : UserEventType) (user : ℤ) (username what room : String)
    → shown s (map (λ t. (t, notice event user username what)) l) room ≡ room
unfolding shown notice shown_after
shown-notices s [] event user username what room = refl
shown-notices s (t ∷ l) event user username what room =
    ap (shown s (map (λ t. (t, notice event user username what)) l)) (if_same (t == s) room)
    ∙ shown-notices s l event user username what room

if_self : (s : ℕ) (a b : String) → (if s == s then a else b) ≡ a
if_self s a b = ground (arith, nat_beq_iff s s)

-- The room after an answer.
pub shown-answer :
    (s : ℕ) (sent : List (ℕ × Envelope)) (op : RoomOperation) (success : Bool)
    (name message room : String)
    → shown s (sent ++ (s, room_response success op name message) ∷ []) room
      ≡ followed op success name (shown s sent room)
unfolding shown room_response shown_after
shown-answer s sent op success name message room = shown-append s sent _ room ∙ if_self s _ _

-- The room after what the other members of a room were told.
pub shown-told :
    (s : ℕ) (sent : List (ℕ × Envelope)) (l : List ℕ) (event : UserEventType) (user : ℤ)
    (username what room : String)
    → shown s (sent ++ map (λ t. (t, notice event user username what)) l) room ≡ shown s sent room
shown-told s sent l event user username what room =
    shown-append s sent _ room ∙ shown-notices s l event user username what _

-- The room of a user after the locked section of an operation of theirs.
module _ (rooms : Rooms) (user : ℤ) where
  pub current-join_room :
      (s : ℕ) (name : String) (row : Room)
      → current_room_name (step rooms (joins user s name row)) user ≡ name
  unfolding current_room_name step
  current-join_room s name row =
      ground (arith, room_of-join_room rooms user user s name row, int_beq_iff user user)

  pub current-create_room :
      (s : ℕ) (name : String) (row : Room)
      → current_room_name (step rooms (creates user s name row)) user ≡ name
  unfolding current_room_name step
  current-create_room s name row =
      ground (arith, room_of-create_room rooms user user s name row, int_beq_iff user user)

  pub current-leave_room :
      current_room_name (step rooms (leaves user (current_room_name rooms user))) user ≡ ""
  unfolding current_room_name step is_mapped_to
  current-leave_room = elim (Option-cases (get rooms.room_of user)) [
    | inl e ↦ ground (arith, room_of-leave_room rooms user user "", int_beq_iff user user)
    | inr (r, e) ↦
        ground (arith, room_of-leave_room rooms user user r, int_beq_iff user user, eq_iff r r)
  ]

module _ {Store : Type 0} (texts : Texts) (c : Client) (s : ℕ) (user : ℤ) where
  -- The client that has handled everything shows the room that the server has the user in.
  abbrev pub Agrees : World Store → Type 0
  Agrees w = (hears texts s w.sent c).current_room ≡ current_room_name w.rooms user

  -- A room that is shown after some answers and found after some sections.
  pub Agrees-of :
      (w : World Store) (sent : List (ℕ × Envelope)) (rooms : Rooms) (room : String)
      → w.sent ≡ sent
      → w.rooms ≡ rooms
      → shown s sent c.current_room ≡ room
      → current_room_name rooms user ≡ room
      → Agrees w
  Agrees-of w sent rooms room se re sh cu =
      current_room-hears texts s w.sent c
      ∙ ap (λ l. shown s l c.current_room) se
      ∙ sh
      ∙ sym cu
      ∙ ap (λ r. current_room_name r user) (sym re)
