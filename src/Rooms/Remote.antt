-- ===== src/Rooms/Remote.antt =====
-- internal/daemon/roommanager.go: a command on a room whose home is another node, as messages between
-- the two room managers. A call is two steps, since it waits for the result in between; a channel with
-- one place is an option. `sends` says whether the transport takes a message.
pub mod Kept
pub mod RoundTrip
pub mod Results
mod Tests
use tailbus.Base.{
  ℕ, String, Bool, true, false, not, ◌==◌, ◌||◌, Option, none, some, List, [], ◌∷◌, ◌++◌, Result,
  ok, err, if◌then◌else◌, Dict, lookup, insert, delete,
}
use tailbus.Rooms.{
  RoomInfo, RoomEvent, RoomCommand, RoomCommandType, join, leave, post, replay, list_members, close,
  RoomCommandResult, RoomError, send_failed, timed_out,
}
use tailbus.Rooms.Manager.{
  Entropy, Faults, RoomManager, Outbound, deliver_local, node_addr, resolve_room_info,
}
use tailbus.Rooms.Commands.{Reply, execute_command}
use tailbus.Rooms.Cache.{cache_room, cache_room_from_event}

pub data Body : Type 0 where
  room_event : RoomEvent → Body
  room_command : RoomCommand → Body
  room_command_result : RoomCommandResult → Body

-- The manager with the channels of its waiting calls and the messages it has sent, each with the
-- address.
pub record Control : Type 0 where
  pub rooms : RoomManager
  pub pending_resp : Dict (Option RoomCommandResult)
  pub sent : List (String × Body)

abbrev pub blank_command : String → RoomCommandType → String → String → String → RoomCommand
blank_command request_id type room_id handle node_id = record {
  request_id = request_id;
  type = type;
  room_id = room_id;
  requester_handle = handle;
  subject_handle = "";
  payload = "";
  content_type = "";
  trace_id = "";
  since_seq = 0;
  requester_node_id = node_id;
}

-- The commands that the calls of an agent make.
module _ (request_id room_id handle node_id : String) where
  abbrev pub join_room : RoomCommand
  join_room = record (blank_command request_id join room_id handle node_id) {
    subject_handle = handle;
  }

  abbrev pub leave_room : RoomCommand
  leave_room = record (blank_command request_id leave room_id handle node_id) {
    subject_handle = handle;
  }

  abbrev pub post_message : String → String → String → RoomCommand
  post_message payload content_type trace_id =
      record (blank_command request_id post room_id handle node_id) {
        payload = payload;
        content_type = content_type;
        trace_id = trace_id;
      }

  abbrev pub list_room_members : RoomCommand
  list_room_members = blank_command request_id list_members room_id handle node_id

  abbrev pub replay_room : ℕ → RoomCommand
  replay_room since_seq = record (blank_command request_id replay room_id handle node_id) {
    since_seq = since_seq;
  }

  abbrev pub close_room : RoomCommand
  close_room = blank_command request_id close room_id handle node_id

-- result.RequestId = cmd.RequestId
abbrev pub stamped :
    RoomCommand → Result RoomError RoomCommandResult → Result RoomError RoomCommandResult
stamped cmd (ok result) = ok (record result { request_id = cmd.request_id })
stamped cmd (err e) = err e

-- A call has its answer, or waits for the result.
pub data Begun : Type 0 where
  answered : Result RoomError RoomCommandResult → Begun
  waiting : Begun

abbrev pub executed : RoomCommand → Control → Reply RoomCommandResult → Begun × Control
executed cmd s (r, rm) = (answered (stamped cmd r), record s { rooms = rm })

abbrev pub forwarded : Bool → RoomCommand → Control → Result RoomError String → Begun × Control
forwarded sends cmd s (err e) = (answered (err e), s)
forwarded sends cmd s (ok addr) =
    if sends
    then (
      waiting,
      record s {
        pending_resp = insert cmd.request_id none s.pending_resp;
        sent = s.sent ++ (addr, room_command cmd) ∷ [];
      },
    )
    else (
      answered (err send_failed),
      record s { pending_resp = delete cmd.request_id s.pending_resp },
    )

abbrev pub at_home :
    Entropy → Faults → Bool → RoomCommand → Control → Result RoomError RoomInfo → Begun × Control
at_home x faults sends cmd s (err e) = (answered (err e), s)
at_home x faults sends cmd s (ok room) =
    if room.home_node_id == s.rooms.node_id
    then executed cmd s (execute_command x faults room cmd s.rooms)
    else forwarded sends cmd s (node_addr s.rooms room.home_node_id)

-- withRoomControl, until it waits.
unfoldable pub begin_control : Entropy → Faults → Bool → RoomCommand → Control → Begun × Control
begin_control x faults sends cmd s =
    at_home x faults sends cmd s (resolve_room_info faults s.rooms cmd.room_id)

abbrev pub answer_of : RoomCommandResult → Option RoomError → Result RoomError RoomCommandResult
answer_of result none = ok result
answer_of result (some e) = err e

-- The select of withRoomControl, which takes the deadline if `expired`, with the deferred delete; without
-- either case ready it goes on waiting.
abbrev pub selected :
    Bool
    → String
    → Option (Option RoomCommandResult)
    → Control
    → Option (Result RoomError RoomCommandResult) × Control
selected expired id (some (some result)) s = (
  some (if expired then err timed_out else answer_of result result.error),
  record s { pending_resp = delete id s.pending_resp },
)
selected expired id _ s =
    if expired
    then (some (err timed_out), record s { pending_resp = delete id s.pending_resp })
    else (none, s)

unfoldable pub end_control :
    Bool → String → Control → Option (Result RoomError RoomCommandResult) × Control
end_control expired id s = selected expired id (lookup id s.pending_resp) s

abbrev pub cache_result : Faults → Option RoomInfo → RoomManager → RoomManager
cache_result faults none rm = rm
cache_result faults (some room) rm = cache_room faults room rm

-- The send to a channel that is full is dropped.
abbrev pub offered : RoomCommandResult → Option (Option RoomCommandResult) → Control → Control
offered result (some none) s = record s {
  pending_resp = insert result.request_id (some result) s.pending_resp;
}
offered result (some (some first)) s = s
offered result none s = s

unfoldable pub handle_remote_command_result : Faults → RoomCommandResult → Control → Control
handle_remote_command_result faults result s =
    offered result (lookup result.request_id s.pending_resp)
      (record s { rooms = cache_result faults result.room s.rooms })

-- To the requester's node, or to a call of this node.
abbrev pub sent_back : Bool → RoomCommandResult → Control → Result RoomError String → Control
sent_back sends result s (err e) = s
sent_back sends result s (ok addr) =
    if sends then record s { sent = s.sent ++ (addr, room_command_result result) ∷ [] } else s

unfoldable pub send_result : Faults → Bool → RoomCommand → RoomCommandResult → Control → Control
send_result faults sends cmd result s =
    if cmd.requester_node_id == "" || cmd.requester_node_id == s.rooms.node_id
    then handle_remote_command_result faults result s
    else sent_back sends result s (node_addr s.rooms cmd.requester_node_id)

abbrev pub error_result : RoomCommand → RoomError → RoomCommandResult
error_result cmd e = record {
  request_id = cmd.request_id;
  error = some e;
  room = none;
  event = none;
  events = [];
  members = [];
}

abbrev pub replied : Faults → Bool → RoomCommand → Control → Reply RoomCommandResult → Control
replied faults sends cmd s (err e, rm) =
    send_result faults sends cmd (error_result cmd e) (record s { rooms = rm })
replied faults sends cmd s (ok result, rm) =
    send_result faults sends cmd (record result { request_id = cmd.request_id })
      (record s { rooms = rm })

abbrev pub asked :
    Entropy → Faults → Bool → RoomCommand → Control → Result RoomError RoomInfo → Control
asked x faults sends cmd s (err e) = send_result faults sends cmd (error_result cmd e) s
asked x faults sends cmd s (ok room) =
    replied faults sends cmd s (execute_command x faults room cmd s.rooms)

-- It does not ask whether this node is the home of the room.
unfoldable pub handle_remote_command : Entropy → Faults → Bool → RoomCommand → Control → Control
handle_remote_command x faults sends cmd s =
    asked x faults sends cmd s (resolve_room_info faults s.rooms cmd.room_id)

unfoldable pub handle_transport_message : Entropy → Faults → Bool → Body → Control → Control
handle_transport_message x faults sends (room_event event) s =
    let rm = cache_room_from_event faults event s.rooms in
    record s { rooms = record rm { outbox = rm.outbox ++ deliver_local event ∷ [] } }
handle_transport_message x faults sends (room_command cmd) s =
    handle_remote_command x faults sends cmd s
handle_transport_message x faults sends (room_command_result result) s =
    handle_remote_command_result faults result s
