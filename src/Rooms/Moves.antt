-- ===== src/Rooms/Moves.antt =====
-- What a command can make of the stored room (internal/daemon/roommanager.go).
use tailbus.Base.{
  ℕ, err, ◌≡◌, refl, ap, ◌∙◌, String, Bool, true, false, ◌==◌, ◌||◌, eq_iff, ◌⊎◌, inl, inr, some,
  List, [], ◌∷◌, arith, Bool-cases, contains, contains-append, inc_u64, if◌then◌else◌,
}
use tailbus.Rooms.{
  RoomInfo, RoomEvent, RoomCommand, RoomCommandType, unspecified, create, join, leave, post, replay,
  list_members, close, store_failed,
}
use tailbus.Rooms.Log.{RoomStore, store_room, load_room}
use tailbus.Rooms.Manager.{Entropy, Faults, RoomManager, next_event, contains-remove_handle}
use tailbus.Rooms.Commands.{
  published-manager, persist_and_publish, record_membership_event, join_local, leave_local,
  post_local, replay_local, close_local, list_members_local, execute_command, dispatch,
}
use tailbus.Rooms.Invariant.{
  Written, nothing, room_only, both, persist-Written, load-store, load-store_event,
}
use tailbus.Rooms.Access.{actor}

-- The state machine of a room: a closing ends it, and no command opens it.
abbrev pub status_after : RoomCommandType → String → String
status_after close status = "closed"
status_after _ status = status

-- Who is a member after a command for `handle`.
abbrev pub member_after : RoomCommandType → String → List String → String → Bool
member_after join handle members h = contains members h || handle == h
member_after leave handle members h = if handle == h then false else contains members h
member_after _ handle members h = contains members h

pub record Moved (type : RoomCommandType) (handle : String) (room r : RoomInfo) : Type 0 where
  pub named : r.room_id ≡ room.room_id
  pub numbered : r.next_seq ≡ inc_u64 room.next_seq
  pub status : r.status ≡ status_after type room.status
  pub members : (h : String) → contains r.members h ≡ member_after type handle room.members h

-- The stored room is as it was, or has moved as the command says.
abbrev pub KeptOrMoved : String → RoomCommandType → String → RoomInfo → RoomStore → Type 0
KeptOrMoved id type handle room st =
    (r : RoomInfo) × (load_room id st ≡ some r) × ((r ≡ room) ⊎ Moved type handle room r)

Written-KeptOrMoved :
    (id : String) (type : RoomCommandType) (handle : String) (room room' : RoomInfo)
    (event : RoomEvent) (max : ℕ) (st st' : RoomStore)
    → load_room id st ≡ some room
    → room.room_id ≡ id
    → Moved type handle room room'
    → Written room' event max st st'
    → KeptOrMoved id type handle room st'
Written-KeptOrMoved id type handle room room' event max st st' found named m (nothing e) =
    (room, ap (load_room id) e ∙ found, inl refl)
Written-KeptOrMoved id type handle room room' event max st st' found named m (room_only e) =
    (room', ap (load_room id) e ∙ load-store id room' st (m.named ∙ named), inr m)
Written-KeptOrMoved id type handle room room' event max st st' found named m (both e) = (
  room',
  ap (load_room id) e
      ∙ load-store_event id event max (store_room room' st)
      ∙ load-store id room' st (m.named ∙ named),
  inr m,
)

module _ (id : String) (x : Entropy) (faults : Faults) (room : RoomInfo) (rm : RoomManager)
    (found : load_room id rm.store ≡ some room) (named : room.room_id ≡ id) where
  kept : (type : RoomCommandType) (handle : String) → KeptOrMoved id type handle room rm.store
  kept type handle = (room, found, inl refl)

  persisted :
      (type : RoomCommandType) (handle : String) (room' : RoomInfo) (event : RoomEvent)
      → Moved type handle room room'
      → KeptOrMoved id type handle room (persist_and_publish faults room' event rm).1.store
  persisted type handle room' event m =
      Written-KeptOrMoved id type handle room room' event rm.retention rm.store _ found named m
        (persist-Written faults room' event rm)

  join-KeptOrMoved :
      (handle : String)
      → KeptOrMoved id join handle room (join_local x faults room handle rm).1.store
  unfolding join_local record_membership_event next_event contains
  join-KeptOrMoved handle = elim (Bool-cases (room.status == "open")) [
    | inr e ↦ rw e (kept join handle)
    | inl e ↦ elim (Bool-cases (contains room.members handle)) [
      | inl f ↦ rw (e, f) (kept join handle)
      | inr f ↦
          rw (e, f, published-manager)
            (persisted join handle _ _ (record {
              named = refl;
              numbered = refl;
              status = refl;
              members = λ h. ground (arith, contains-append room.members (handle ∷ []) h);
            }))
    ]
  ]

  leave-KeptOrMoved :
      (handle : String)
      → KeptOrMoved id leave handle room (leave_local x faults room handle rm).1.store
  unfolding leave_local record_membership_event next_event
  leave-KeptOrMoved handle = elim (Bool-cases (contains room.members handle)) [
    | inr e ↦ rw e (kept leave handle)
    | inl e ↦
        rw (e, published-manager)
          (persisted leave handle _ _ (record {
            named = refl;
            numbered = refl;
            status = refl;
            members = λ h. contains-remove_handle room.members handle h;
          }))
  ]

  post-KeptOrMoved :
      (from payload ct trace : String)
      → KeptOrMoved id post from room (post_local x faults room from payload ct trace rm).1.store
  unfolding post_local next_event
  post-KeptOrMoved from payload ct trace = elim (Bool-cases (room.status == "open")) [
    | inr e ↦ rw e (kept post from)
    | inl e ↦ elim (Bool-cases (contains room.members from)) [
      | inr f ↦ rw (e, f) (kept post from)
      | inl f ↦
          rw (e, f, published-manager)
            (persisted post from _ _
              (record { named = refl; numbered = refl; status = refl; members = λ h. refl }))
    ]
  ]

  close-KeptOrMoved :
      (handle : String)
      → KeptOrMoved id close handle room (close_local x faults room handle rm).1.store
  unfolding close_local next_event
  close-KeptOrMoved handle = elim (Bool-cases (contains room.members handle)) [
    | inr e ↦ rw e (kept close handle)
    | inl e ↦
        rw (e, published-manager)
          (persisted close handle _ _
            (record { named = refl; numbered = refl; status = refl; members = λ h. refl }))
  ]

  read-KeptOrMoved :
      (type : RoomCommandType) (request handle : String) (n : ℕ)
      → KeptOrMoved id type handle room (replay_local faults room handle n rm).1.store
        × KeptOrMoved id type handle room (list_members_local room request handle rm).1.store
  unfolding replay_local list_members_local
  read-KeptOrMoved type request handle n = elim (Bool-cases (contains room.members handle)) [
    | inr e ↦ rw e (kept type handle, kept type handle)
    | inl e ↦ elim (Bool-cases faults.read_events) [
      | inl fails ↦ rw (e, fails) (kept type handle, kept type handle)
      | inr works ↦ rw (e, works) (kept type handle, kept type handle)
    ]
  ]

  dispatch-KeptOrMoved :
      (type : RoomCommandType) (cmd : RoomCommand)
      → KeptOrMoved id type
          (actor (record cmd { type = type }))
          room
          (dispatch type x faults room cmd rm).1.store
  dispatch-KeptOrMoved join cmd = join-KeptOrMoved cmd.subject_handle
  dispatch-KeptOrMoved leave cmd = leave-KeptOrMoved cmd.subject_handle
  dispatch-KeptOrMoved post cmd =
      post-KeptOrMoved cmd.requester_handle cmd.payload cmd.content_type cmd.trace_id
  dispatch-KeptOrMoved replay cmd =
      (read-KeptOrMoved replay "" cmd.requester_handle cmd.since_seq).0
  dispatch-KeptOrMoved list_members cmd =
      (read-KeptOrMoved list_members cmd.request_id cmd.requester_handle 0).1
  dispatch-KeptOrMoved close cmd = close-KeptOrMoved cmd.requester_handle
  dispatch-KeptOrMoved unspecified cmd = kept unspecified cmd.requester_handle
  dispatch-KeptOrMoved create cmd = kept create cmd.requester_handle

-- Whichever writes fail, a command leaves the stored room as it was, or moves it by the state
-- machine: its number goes on by one, only a close changes the status, to closed, a join adds
-- exactly its subject to the members, a leave takes exactly its subject out, and no other command
-- changes them.
pub execute_command-KeptOrMoved :
    (id : String) (x : Entropy) (faults : Faults) (room : RoomInfo) (rm : RoomManager)
    (cmd : RoomCommand)
    → load_room id rm.store ≡ some room
    → room.room_id ≡ id
    → KeptOrMoved id cmd.type (actor cmd) room (execute_command x faults room cmd rm).1.store
unfolding execute_command
execute_command-KeptOrMoved id x faults room rm cmd found named =
    dispatch-KeptOrMoved id x faults room rm found named cmd.type cmd

-- A join whose event cannot be stored is refused, and has made its subject a member all the same:
-- the room is written first, and by itself.
pub join_half_done :
    (id : String) (x : Entropy) (room : RoomInfo) (rm : RoomManager) (handle : String)
    → load_room id rm.store ≡ some room
    → room.room_id ≡ id
    → (room.status == "open") ≡ true
    → contains room.members handle ≡ false
    → let faults : Faults = record {
      load_room = false;
      store_room = false;
      store_event = true;
      upsert_room = false;
      read_events = false;
    } in
      let r = join_local x faults room handle rm in
      (r.0 ≡ err store_failed)
      × ((s : RoomInfo) × (load_room id r.1.store ≡ some s) × (contains s.members handle ≡ true))
unfolding join_local record_membership_event persist_and_publish next_event contains
join_half_done id x room rm handle found named open_ out =
    rw (open_, out)
      (
        refl,
        (
          _,
          load-store id _ rm.store named,
          ground (arith, contains-append room.members (handle ∷ []) handle, eq_iff handle handle),
        ),
      )
