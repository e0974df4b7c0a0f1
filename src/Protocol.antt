-- ===== src/Protocol.antt =====
-- common/proto/chat.proto: the messages, with the fields of each in the order of the file. A field
-- that a handler leaves unset has the default of proto3: "", 0, false, the first enumerator.
use cpp_chat_server.Prelude.{ℤ, String, Bool, Option, List}

-- google.protobuf.Timestamp
pub record Timestamp : Type 0 where
  pub seconds : ℤ
  pub nanos : ℤ

pub record MessageBroadcast : Type 0 where
  pub from_user_id : String
  pub from_username : String
  pub content : String
  pub timestamp : Timestamp
  pub room_name : Option String

-- An enumeration of proto3 is open: a peer can send a number that has no name.
pub data RoomOperation : Type 0 where
  join leave create : RoomOperation
  unrecognized : ℤ → RoomOperation

pub record RoomOperationResponse : Type 0 where
  pub success : Bool
  pub operation : RoomOperation
  pub room_name : String
  pub message : String

pub data UserEventType : Type 0 where
  user_joined user_left : UserEventType

pub record ServerNotification : Type 0 where
  pub event_type : UserEventType
  pub user_id : String
  pub username : String
  pub message : String

pub record ErrorResponse : Type 0 where
  pub original_message_id : String
  pub error_code : ℤ
  pub error_message : String

-- The `oneof payload` of an envelope.
pub data Payload : Type 0 where
  not_set : Payload
  login_request : (username password : String) → Payload
  login_response : (success : Bool) (message user_id : String) → Payload
  registration_request : (username password : String) → Payload
  registration_response : (success : Bool) (message : String) → Payload
  change_password_request : (old_password new_password : String) → Payload
  change_password_response : (success : Bool) (message : String) → Payload
  change_username_request : (new_username : String) → Payload
  change_username_response : (success : Bool) (message new_username : String) → Payload
  public_message : (content : String) → Payload
  message_broadcast : MessageBroadcast → Payload
  private_message_request : (to_username content : String) → Payload
  room_operation_request : RoomOperation → (room_name : String) → Payload
  room_operation_response : RoomOperationResponse → Payload
  history_message_request : (room_name : String) (limit : ℤ) → Payload
  history_message_response : (room_name : String) (messages : List MessageBroadcast) → Payload
  server_notification : ServerNotification → Payload
  error_response : ErrorResponse → Payload

pub record Envelope : Type 0 where
  pub message_id : String
  pub payload : Payload

-- `chat::Envelope response;` with the payload that a handler then fills in.
abbrev pub envelope : Payload → Envelope
envelope p = record { message_id = ""; payload = p }

abbrev pub error : ℤ → String → Envelope
error code text =
    envelope (
      error_response (record { original_message_id = ""; error_code = code; error_message = text }))
