-- ===== src/Rooms/Access.antt =====
-- Who may do what in a room, and what a command that succeeds has done
-- (internal/daemon/roommanager.go).
use tailbus.Base.{
  ℕ, ◌≡◌, ◌≢◌, refl, ap, ◌∙◌, String, true, false, ◌==◌, none, some, [], ◌∷◌, ◌++◌, inl, inr, ◌⊎◌,
  Bool-cases, ok, err, contains, inc_u64, if◌then◌else◌,
}
use tailbus.Rooms.{
  RoomInfo, RoomEvent, message_posted, RoomCommand, RoomCommandType, RoomCommandResult, RoomError,
  unspecified, create, join, leave, post, replay, list_members, close, not_a_member, room_is,
  unsupported_command,
}
use tailbus.Rooms.Log.{
  RoomStore, store_room, load_room, room_log, store_room_event, put_event, put_event-last, trim,
}
use tailbus.Rooms.Manager.{Entropy, Faults, RoomManager, next_event}
use tailbus.Rooms.Commands.{
  published, persist_and_publish, join_local, leave_local, post_local, replay_local, close_local,
  list_members_local, execute_command, dispatch,
}
use tailbus.Rooms.Invariant.{
  IsGood, GoodRoom, log-store_event, load-store, load-store_event, log-store_room, publish-store,
}

-- The handle a command acts for.
abbrev pub actor : RoomCommand → String
actor cmd = elim cmd.type [
  | join ↦ cmd.subject_handle
  | leave ↦ cmd.subject_handle
  | _ ↦ cmd.requester_handle
]

-- The error that a handle outside the room gets: a closed room is told before a missing
-- membership.
abbrev pub refusal : RoomInfo → RoomCommand → RoomError
refusal room cmd = elim cmd.type [
  | post ↦ if room.status == "open" then not_a_member cmd.requester_handle else room_is room.status
  | unspecified ↦ unsupported_command unspecified
  | create ↦ unsupported_command create
  | leave ↦ not_a_member cmd.subject_handle
  | _ ↦ not_a_member cmd.requester_handle
]

module _ (x : Entropy) (faults : Faults) (room : RoomInfo) (rm : RoomManager) where
  dispatch_refused :
      (type : RoomCommandType) (cmd : RoomCommand)
      → type ≢ join
      → contains room.members (actor (record cmd { type = type })) ≡ false
      → dispatch type x faults room cmd rm ≡ (err (refusal room (record cmd { type = type })), rm)
  unfolding leave_local post_local replay_local list_members_local close_local
  dispatch_refused join cmd n out = absurd (n refl)
  dispatch_refused leave cmd n out = rw out
  dispatch_refused post cmd n out = elim (Bool-cases (room.status == "open")) [
    | inl e ↦ rw (e, out)
    | inr e ↦ rw e
  ]
  dispatch_refused replay cmd n out = rw out
  dispatch_refused list_members cmd n out = rw out
  dispatch_refused close cmd n out = rw out
  dispatch_refused unspecified cmd n out = refl
  dispatch_refused create cmd n out = refl

-- Whatever a handle outside the room asks for but to join it is refused, with the error that
-- `refusal` names, and changes nothing.
pub outsider_refused :
    (x : Entropy) (faults : Faults) (room : RoomInfo) (rm : RoomManager) (cmd : RoomCommand)
    → contains room.members (actor cmd) ≡ false
    → cmd.type ≢ join
    → execute_command x faults room cmd rm ≡ (err (refusal room cmd), rm)
unfolding execute_command
outsider_refused x faults room rm cmd out not_join =
    dispatch_refused x faults room rm cmd.type cmd not_join out

-- A room that is not open takes no new member and no message: the command is refused with the
-- status, and changes nothing.
pub closed_refused :
    (x : Entropy) (faults : Faults) (room : RoomInfo) (rm : RoomManager) (cmd : RoomCommand)
    → (room.status == "open") ≡ false
    → (cmd.type ≡ join) ⊎ (cmd.type ≡ post)
    → execute_command x faults room cmd rm ≡ (err (room_is room.status), rm)
unfolding execute_command join_local post_local
closed_refused x faults room rm cmd shut (inl e) = rw (e, shut)
closed_refused x faults room rm cmd shut (inr e) = rw (e, shut)

abbrev pub no_faults : Faults
no_faults = record {
  load_room = false;
  store_room = false;
  store_event = false;
  upsert_room = false;
  read_events = false;
}

-- Without faults both writes are made, and the command succeeds.
persist_all :
    (room : RoomInfo) (event : RoomEvent) (rm : RoomManager) (result : RoomCommandResult)
    → let r = published (persist_and_publish no_faults room event rm) result in
      (r.0 ≡ ok result)
      × (r.1.store ≡ store_room_event event rm.retention (store_room room rm.store))
unfolding persist_and_publish
persist_all room event rm result = elim (Bool-cases rm.has_coord) [
  | inl e ↦ rw e (refl, publish-store _ event)
  | inr e ↦ rw e (refl, publish-store _ event)
]

-- What both writes leave in the log and for the room.
both_written :
    (id : String) (room room' : RoomInfo) (event : RoomEvent) (max : ℕ) (st st' : RoomStore)
    → IsGood id st
    → load_room id st ≡ some room
    → room'.room_id ≡ room.room_id
    → event.room_id ≡ room.room_id
    → event.room_seq ≡ room.next_seq
    → st' ≡ store_room_event event max (store_room room' st)
    → (room_log id st' ≡ trim max (room_log id st ++ (room.next_seq, event) ∷ []))
      × (load_room id st' ≡ some room')
both_written id room room' event max st st' good found named event_named n e = (
  ap (room_log id) e
      ∙ log-store_event id event max (store_room room' st) (event_named ∙ g.named)
      ∙ ap (λ b. trim max (put_event event.room_seq event b)) (log-store_room id room' st)
      ∙ ap (λ k. trim max (put_event k event (room_log id st))) n
      ∙ ap (trim max) (put_event-last 0 (room_log id st) room.next_seq event g.log_rises),
  ap (load_room id) e
      ∙ load-store_event id event max (store_room room' st)
      ∙ load-store id room' st (named ∙ g.named),
)
  where
    g : GoodRoom id room (room_log id st)
    g = good room found

-- The event of a post, which bears the room's next number, and the room after it.
abbrev pub posted : Entropy → RoomInfo → RoomCommand → RoomEvent × RoomInfo
posted x room cmd = (
  record {
    event_id = x.uuid;
    room_id = room.room_id;
    room_seq = room.next_seq;
    sender_handle = cmd.requester_handle;
    subject_handle = "";
    payload = cmd.payload;
    content_type = cmd.content_type;
    sent_at_unix = x.now;
    type = message_posted;
    trace_id = cmd.trace_id;
    members = room.members;
  },
  record room { next_seq = inc_u64 room.next_seq; updated_at_unix = x.now },
)

-- A member's post to an open room of a good store, when no write fails, returns the event that
-- bears the room's next number; the event is the last of the log, which is cut to the retention;
-- and the stored room has gone on to the next number.
pub post_appends :
    (id : String) (x : Entropy) (room : RoomInfo) (rm : RoomManager) (cmd : RoomCommand)
    → IsGood id rm.store
    → load_room id rm.store ≡ some room
    → cmd.type ≡ post
    → (room.status == "open") ≡ true
    → contains room.members cmd.requester_handle ≡ true
    → let r = execute_command x no_faults room cmd rm in
      let (event, room') = posted x room cmd in
      (r.0
        ≡ ok (record {
          request_id = "";
          error = none;
          room = some room';
          event = some event;
          events = [];
          members = [];
        }))
      × (room_log id r.1.store
          ≡ trim rm.retention (room_log id rm.store ++ (room.next_seq, event) ∷ []))
      × (load_room id r.1.store ≡ some room')
unfolding execute_command post_local next_event
post_appends id x room rm cmd good found is_post is_open is_in =
    let (event, room') = posted x room cmd in
    let done = persist_all room' event rm (record {
      request_id = "";
      error = none;
      room = some room';
      event = some event;
      events = [];
      members = [];
    }) in
    let written =
      both_written id room room' event rm.retention rm.store _ good found refl refl refl done.1 in
    rw (is_post, is_open, is_in) (done.0, written.0, written.1)
