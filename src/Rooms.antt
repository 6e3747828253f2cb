-- ===== src/Rooms.antt =====
-- The messages of a room (proto/tailbus/v1/messages.proto, as internal/daemon/roommanager.go uses
-- them). Payloads are texts.
pub mod Log
pub mod Manager
pub mod Publish
pub mod Commands
pub mod Invariant
pub mod Access
pub mod Moves
pub mod Cache
pub mod Remote
mod Tests
use tailbus.Base.{ℕ, String, Bool, Option, List}
use tailbus.Resolver.{NotFound}

pub record RoomInfo : Type 0 where
  pub room_id : String
  pub title : String
  pub created_by : String
  pub home_node_id : String
  pub members : List String
  pub status : String
  pub next_seq : ℕ
  pub created_at_unix : ℕ
  pub updated_at_unix : ℕ

pub data RoomEventType : Type 0 where
  member_joined member_left message_posted room_closed : RoomEventType

pub record RoomEvent : Type 0 where
  pub event_id : String
  pub room_id : String
  pub room_seq : ℕ
  pub sender_handle : String
  pub subject_handle : String
  pub payload : String
  pub content_type : String
  pub sent_at_unix : ℕ
  pub type : RoomEventType
  pub trace_id : String
  pub members : List String

pub data RoomCommandType : Type 0 where
  unspecified create join leave post replay list_members close : RoomCommandType

pub record RoomCommand : Type 0 where
  pub request_id : String
  pub type : RoomCommandType
  pub room_id : String
  pub requester_handle : String
  pub subject_handle : String
  pub payload : String
  pub content_type : String
  pub trace_id : String
  pub since_seq : ℕ
  pub requester_node_id : String

-- What the error texts tell apart.
pub data RoomError : Type 0 where
  room_is : String → RoomError
  not_a_member : String → RoomError
  unsupported_command : RoomCommandType → RoomError
  store_failed coord_failed : RoomError
  not_found : NotFound → RoomError
  node_not_found : String → RoomError
  send_failed timed_out no_result : RoomError

pub record RoomCommandResult : Type 0 where
  pub request_id : String
  pub error : Option RoomError
  pub room : Option RoomInfo
  pub event : Option RoomEvent
  pub events : List RoomEvent
  pub members : List String
