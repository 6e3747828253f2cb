-- ===== src/Rooms/Commands.antt =====
-- internal/daemon/roommanager.go: what each room command does on the room's home node. A command
-- returns its result and the manager afterwards; what was written before an error stays written.
use tailbus.Base.{
  ℕ, ◌≡◌, refl, String, ◌==◌, ◌&&◌, not, Option, none, some, List, [], ◌∷◌, ◌++◌, Result, ok, err,
  contains, if◌then◌else◌,
}
use tailbus.Rooms.{
  RoomInfo, RoomEvent, RoomEventType, member_joined, member_left, message_posted, room_closed,
  RoomCommand, RoomCommandType, unspecified, create, join, leave, post, replay, list_members, close,
  RoomCommandResult, RoomError, room_is, not_a_member, unsupported_command, store_failed,
  coord_failed,
}
use tailbus.Rooms.Log.{store_room, store_room_event, replay_room_events}
use tailbus.Rooms.Manager.{
  Entropy, Faults, RoomManager, Activity, room_created, room_activity, is_room_member,
  unique_handles, remove_handle, next_event,
}
use tailbus.Rooms.Publish.{publish_event}

abbrev pub Reply : Type 0 → Type 0
Reply A = Result RoomError A × RoomManager

-- coord.UpsertRoom, if a client is set
abbrev upsert : RoomInfo → RoomManager → RoomManager
upsert room rm = if rm.has_coord then record rm { upserts = rm.upserts ++ room ∷ [] } else rm

abbrev emit : Activity → RoomManager → RoomManager
emit a rm = record rm { activity = rm.activity ++ a ∷ [] }

-- Room, event, coordinator, then the activity and the subscribers; the first failure ends it.
unfoldable pub persist_and_publish : Faults → RoomInfo → RoomEvent → RoomManager → Reply (Unit {0})
persist_and_publish faults room event rm =
    let rm₁ = record rm { store = store_room room rm.store } in
    let rm₂ = record rm { store = store_room_event event rm.retention rm₁.store } in
    let rm₃ = upsert room rm₂ in
    if faults.store_room
    then (err store_failed, rm)
    else if faults.store_event
    then (err store_failed, rm₁)
    else if rm.has_coord && faults.upsert_room
    then (err coord_failed, rm₂)
    else (ok tt, publish_event (emit (room_activity event) rm₃) event)

-- The result of a command after its event has been published.
abbrev pub published : Reply (Unit {0}) → RoomCommandResult → Reply RoomCommandResult
published (ok _, rm) result = (ok result, rm)
published (err e, rm) result = (err e, rm)

abbrev result_of : RoomInfo → Option RoomEvent → List RoomEvent → List String → RoomCommandResult
result_of room event events members = record {
  request_id = "";
  error = none;
  room = some room;
  event = event;
  events = events;
  members = members;
}

pub published-manager :
    (r : Reply (Unit {0})) (result : RoomCommandResult) → (published r result).1 ≡ r.1
published-manager (ok _, rm) result = refl
published-manager (err e, rm) result = refl

unfoldable pub record_membership_event :
    Entropy → Faults → RoomInfo → RoomEventType → String → RoomManager → Reply RoomCommandResult
unfolding next_event
record_membership_event x faults room type subject rm =
    let (event, room') = next_event x room type subject subject "" "text/plain" "" in
    published (persist_and_publish faults room' event rm)
      (result_of room' (some event) [] room'.members)

unfoldable pub join_local :
    Entropy → Faults → RoomInfo → String → RoomManager → Reply RoomCommandResult
join_local x faults room handle rm =
    if not (room.status == "open")
    then (err (room_is room.status), rm)
    else if contains room.members handle
    then (ok (result_of room none [] room.members), rm)
    else record_membership_event x faults (record room { members = room.members ++ handle ∷ [] })
        member_joined handle rm

unfoldable pub leave_local :
    Entropy → Faults → RoomInfo → String → RoomManager → Reply RoomCommandResult
leave_local x faults room handle rm =
    if not (contains room.members handle)
    then (err (not_a_member handle), rm)
    else record_membership_event x faults
        (record room { members = remove_handle room.members handle }) member_left handle rm

unfoldable pub post_local :
    Entropy
    → Faults
    → RoomInfo
    → String
    → String
    → String
    → String
    → RoomManager
    → Reply RoomCommandResult
unfolding next_event is_room_member
post_local x faults room from payload content_type trace_id rm =
    let (event, room') = next_event x room message_posted from "" payload content_type trace_id in
    if not (room.status == "open")
    then (err (room_is room.status), rm)
    else if not (is_room_member room from)
    then (err (not_a_member from), rm)
    else published (persist_and_publish faults room' event rm) (result_of room' (some event) [] [])

unfoldable pub replay_local : Faults → RoomInfo → String → ℕ → RoomManager → Reply RoomCommandResult
unfolding is_room_member
replay_local faults room handle since_seq rm =
    if not (is_room_member room handle)
    then (err (not_a_member handle), rm)
    else if faults.read_events
    then (err store_failed, rm)
    else (ok (result_of room none (replay_room_events room.room_id since_seq rm.store) []), rm)

unfoldable pub close_local :
    Entropy → Faults → RoomInfo → String → RoomManager → Reply RoomCommandResult
unfolding next_event is_room_member
close_local x faults room handle rm =
    let (event, room') =
      next_event x (record room { status = "closed" }) room_closed handle "" "" "text/plain" "" in
    if not (is_room_member room handle)
    then (err (not_a_member handle), rm)
    else published (persist_and_publish faults room' event rm) (result_of room' (some event) [] [])

unfoldable pub list_members_local :
    RoomInfo → String → String → RoomManager → Reply RoomCommandResult
unfolding is_room_member
list_members_local room request_id handle rm =
    if not (is_room_member room handle)
    then (err (not_a_member handle), rm)
    else (ok (record (result_of room none [] room.members) { request_id = request_id }), rm)

abbrev pub dispatch :
    RoomCommandType
    → Entropy
    → Faults
    → RoomInfo
    → RoomCommand
    → RoomManager
    → Reply RoomCommandResult
dispatch join x faults room cmd rm = join_local x faults room cmd.subject_handle rm
dispatch leave x faults room cmd rm = leave_local x faults room cmd.subject_handle rm
dispatch post x faults room cmd rm =
    post_local x faults room cmd.requester_handle cmd.payload cmd.content_type cmd.trace_id rm
dispatch replay x faults room cmd rm =
    replay_local faults room cmd.requester_handle cmd.since_seq rm
dispatch list_members x faults room cmd rm =
    list_members_local room cmd.request_id cmd.requester_handle rm
dispatch close x faults room cmd rm = close_local x faults room cmd.requester_handle rm
dispatch unspecified x faults room cmd rm = (err (unsupported_command unspecified), rm)
dispatch create x faults room cmd rm = (err (unsupported_command create), rm)

unfoldable pub execute_command :
    Entropy → Faults → RoomInfo → RoomCommand → RoomManager → Reply RoomCommandResult
execute_command x faults room cmd rm = dispatch cmd.type x faults room cmd rm

unfoldable pub create_room :
    Entropy → Faults → String → String → List String → RoomManager → Reply RoomInfo
create_room x faults creator title initial_members rm =
    let room : RoomInfo = record {
      room_id = x.uuid;
      title = title;
      created_by = creator;
      home_node_id = rm.node_id;
      members = unique_handles (creator ∷ initial_members);
      status = "open";
      next_seq = 1;
      created_at_unix = x.now;
      updated_at_unix = x.now;
    } in
    let rm₁ = record rm { store = store_room room rm.store } in
    if faults.store_room
    then (err store_failed, rm)
    else if rm.has_coord && faults.upsert_room
    then (err coord_failed, rm₁)
    else (ok room, emit (room_created room) (upsert room rm₁))
