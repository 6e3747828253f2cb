-- ===== src/Rooms/Invariant.antt =====
-- The invariant of a stored room and its log, which every command keeps whatever write fails
-- (internal/daemon/roommanager.go, internal/daemon/msgstore.go).
use tailbus.Base.{
  ℕ, ◌+◌, ◌^◌, ◌<◌, ◌≡◌, refl, sym, ◌∙◌, String, ◌==◌, ◌&&◌, subst, eq_of_some, some, [], ◌∷◌,
  arith, inl, inr, Bool-cases, contains, Distinct, Distinct-snoc, lookup-insert_self,
}
use tailbus.Rooms.{
  RoomInfo, RoomEvent, RoomEventType, RoomCommand, RoomCommandType, unspecified, create, join,
  leave, post, replay, list_members, close,
}
use tailbus.Rooms.Log.{
  Bucket, RoomStore, store_room, load_room, room_log, store_room_event, put_event, put_event-last,
  trim, Rising, Rising-snoc, trim-Rising,
}
use tailbus.Rooms.Manager.{Entropy, Faults, RoomManager, next_event, remove_handle-Distinct}
use tailbus.Rooms.Publish.{publish_event}
use tailbus.Rooms.Commands.{
  published-manager, persist_and_publish, record_membership_event, join_local, leave_local,
  post_local, replay_local, close_local, list_members_local, execute_command, dispatch,
}

-- What holds of a room and its log: the handles are distinct, and the log's numbers rise and stay
-- below the next number.
pub record GoodRoom (id : String) (room : RoomInfo) (log : Bucket) : Type 0 where
  pub named : room.room_id ≡ id
  pub members_distinct : Distinct room.members
  pub log_rises : Rising 0 log room.next_seq

abbrev pub IsGood : String → RoomStore → Type 0
IsGood id st = (room : RoomInfo) → load_room id st ≡ some room → GoodRoom id room (room_log id st)

pub load-store :
    (id : String) (room : RoomInfo) (st : RoomStore)
    → room.room_id ≡ id
    → load_room id (store_room room st) ≡ some room
unfolding load_room store_room
load-store id room st e = rw (← e) (lookup-insert_self room.room_id room st.rooms)

pub log-store_room :
    (id : String) (room : RoomInfo) (st : RoomStore)
    → room_log id (store_room room st) ≡ room_log id st
unfolding room_log store_room
log-store_room id room st = refl

pub load-store_event :
    (id : String) (e : RoomEvent) (max : ℕ) (st : RoomStore)
    → load_room id (store_room_event e max st) ≡ load_room id st
unfolding load_room store_room_event
load-store_event id e max st = refl

pub log-store_event :
    (id : String) (e : RoomEvent) (max : ℕ) (st : RoomStore)
    → e.room_id ≡ id
    → room_log id (store_room_event e max st) ≡ trim max (put_event e.room_seq e (room_log id st))
unfolding room_log store_room_event
log-store_event id e max st h = rw (← h, lookup-insert_self)

pub publish-store : (rm : RoomManager) (e : RoomEvent) → (publish_event rm e).store ≡ rm.store
unfolding publish_event
publish-store rm e = refl

-- A command leaves one of three stores, by the write that failed first.
pub data Written (room : RoomInfo) (event : RoomEvent) (max : ℕ) (st st' : RoomStore) : Type 0 where
  nothing : st' ≡ st → Written room event max st st'
  room_only : st' ≡ store_room room st → Written room event max st st'
  both : st' ≡ store_room_event event max (store_room room st) → Written room event max st st'

pub persist-Written :
    (faults : Faults) (room : RoomInfo) (event : RoomEvent) (rm : RoomManager)
    → Written room event rm.retention rm.store (persist_and_publish faults room event rm).1.store
unfolding persist_and_publish
persist-Written faults room event rm = elim (Bool-cases faults.store_room) [
  | inl e ↦ rw e (nothing refl)
  | inr e ↦ elim (Bool-cases faults.store_event) [
    | inl f ↦ rw (e, f) (room_only refl)
    | inr f ↦ elim (Bool-cases (rm.has_coord && faults.upsert_room)) [
      | inl g ↦ rw (e, f, g) (both refl)
      | inr g ↦ rw (e, f, g) (both (publish-store _ event ∙ ground arith))
    ]
  ]
]

-- The stored room of a good store, and its successor with its event.
record Successor (id : String) (room : RoomInfo) (event : RoomEvent) (log : Bucket) : Type 0 where
  named : room.room_id ≡ id
  event_named : event.room_id ≡ id
  members_distinct : Distinct room.members
  numbered : room.next_seq ≡ event.room_seq + 1
  log_rises : Rising 0 log event.room_seq

Rising-suc : (lo : ℕ) (b : Bucket) (hi : ℕ) → Rising lo b hi → Rising lo b (hi + 1)
Rising-suc lo [] hi h = omega arith
Rising-suc lo ((k, e) ∷ r) hi h = (h.0, h.1, Rising-suc (k + 1) r hi h.2)

Written-IsGood :
    (id : String) (room : RoomInfo) (event : RoomEvent) (max : ℕ) (st st' : RoomStore)
    → IsGood id st
    → Successor id room event (room_log id st)
    → Written room event max st st'
    → IsGood id st'
Written-IsGood id room event max st st' good s (nothing e) = rw e good
Written-IsGood id room event max st st' good s (room_only e) = rw e λ r found.
    let same = eq_of_some (sym (load-store id room st s.named) ∙ found) in
    subst (λ q. GoodRoom id q (room_log id (store_room room st))) same
      (record {
        named = s.named;
        members_distinct = s.members_distinct;
        log_rises =
            rw (log-store_room id room st, s.numbered)
              (Rising-suc 0 (room_log id st) event.room_seq s.log_rises);
      })
Written-IsGood id room event max st st' good s (both e) = rw e λ r found.
    let same = eq_of_some (
      sym (load-store id room st s.named)
      ∙ sym (load-store_event id event max (store_room room st))
      ∙ found) in
    subst (λ q. GoodRoom id q (room_log id (store_room_event event max (store_room room st)))) same
      (record {
        named = s.named;
        members_distinct = s.members_distinct;
        log_rises =
            rw
              (
                log-store_event id event max (store_room room st) s.event_named,
                log-store_room id room st,
                put_event-last 0 (room_log id st) event.room_seq event s.log_rises,
                s.numbered,
              )
              (trim-Rising max 0 _ _
                (Rising-snoc 0 (room_log id st) event.room_seq event refl s.log_rises));
      })

persist-IsGood :
    (id : String) (faults : Faults) (room : RoomInfo) (event : RoomEvent) (rm : RoomManager)
    → IsGood id rm.store
    → Successor id room event (room_log id rm.store)
    → IsGood id (persist_and_publish faults room event rm).1.store
persist-IsGood id faults room event rm good s =
    Written-IsGood id room event rm.retention rm.store _ good s
      (persist-Written faults room event rm)

-- The event made from a stored room, after a change of its members or its status.
module _ (id : String) (x : Entropy) (faults : Faults) (room : RoomInfo) (rm : RoomManager)
    (good : IsGood id rm.store) (found : load_room id rm.store ≡ some room)
    (fits : room.next_seq + 1 < 2 ^ 64) where
  next-Successor :
      (changed : RoomInfo) (type : RoomEventType) (sender subject payload ct trace : String)
      → changed.room_id ≡ room.room_id
      → changed.next_seq ≡ room.next_seq
      → Distinct changed.members
      → Successor id
          (next_event x changed type sender subject payload ct trace).1
          (next_event x changed type sender subject payload ct trace).0
          (room_log id rm.store)
  unfolding next_event
  next-Successor changed type sender subject payload ct trace e n d = record {
    named = e ∙ (good room found).named;
    event_named = e ∙ (good room found).named;
    members_distinct = d;
    numbered = omega (arith, n);
    log_rises = rw n (good room found).log_rises;
  }

  membership-IsGood :
      (changed : RoomInfo) (type : RoomEventType) (subject : String)
      → changed.room_id ≡ room.room_id
      → changed.next_seq ≡ room.next_seq
      → Distinct changed.members
      → IsGood id (record_membership_event x faults changed type subject rm).1.store
  unfolding record_membership_event
  membership-IsGood changed type subject e n d = rw published-manager (
      persist-IsGood id faults _ _ rm good
        (next-Successor changed type subject subject "" "text/plain" "" e n d))

  join-IsGood : (handle : String) → IsGood id (join_local x faults room handle rm).1.store
  unfolding join_local
  join-IsGood handle = elim (Bool-cases (room.status == "open")) [
    | inr e ↦ rw e good
    | inl e ↦ elim (Bool-cases (contains room.members handle)) [
      | inl f ↦ rw (e, f) good
      | inr f ↦
          rw (e, f)
            (membership-IsGood _ _ handle refl refl
              (Distinct-snoc room.members handle (good room found).members_distinct f))
    ]
  ]

  leave-IsGood : (handle : String) → IsGood id (leave_local x faults room handle rm).1.store
  unfolding leave_local
  leave-IsGood handle = elim (Bool-cases (contains room.members handle)) [
    | inr e ↦ rw e good
    | inl e ↦ rw e (
        membership-IsGood _ _ handle refl refl
          (remove_handle-Distinct room.members handle (good room found).members_distinct))
  ]

  post-IsGood :
      (from payload ct trace : String)
      → IsGood id (post_local x faults room from payload ct trace rm).1.store
  unfolding post_local
  post-IsGood from payload ct trace = elim (Bool-cases (room.status == "open")) [
    | inr e ↦ rw e good
    | inl e ↦ elim (Bool-cases (contains room.members from)) [
      | inr f ↦ rw (e, f) good
      | inl f ↦
          rw (e, f, published-manager)
            (persist-IsGood id faults _ _ rm good (
              next-Successor room _ from "" payload ct trace refl refl
                (good room found).members_distinct))
    ]
  ]

  close-IsGood : (handle : String) → IsGood id (close_local x faults room handle rm).1.store
  unfolding close_local
  close-IsGood handle = elim (Bool-cases (contains room.members handle)) [
    | inr e ↦ rw e good
    | inl e ↦
        rw (e, published-manager)
          (persist-IsGood id faults _ _ rm good (
            next-Successor (record room { status = "closed" }) _ handle "" "" "text/plain" "" refl
              refl (good room found).members_distinct))
  ]

  replay-IsGood :
      (handle : String) (n : ℕ) → IsGood id (replay_local faults room handle n rm).1.store
  unfolding replay_local
  replay-IsGood handle n = elim (Bool-cases (contains room.members handle)) [
    | inr e ↦ rw e good
    | inl e ↦ elim (Bool-cases faults.read_events) [
      | inl fails ↦ rw (e, fails) good
      | inr works ↦ rw (e, works) good
    ]
  ]

  list-IsGood :
      (request handle : String) → IsGood id (list_members_local room request handle rm).1.store
  unfolding list_members_local
  list-IsGood request handle = elim (Bool-cases (contains room.members handle)) [
    | inr e ↦ rw e good
    | inl e ↦ rw e good
  ]

  dispatch-IsGood :
      (type : RoomCommandType) (cmd : RoomCommand)
      → IsGood id (dispatch type x faults room cmd rm).1.store
  dispatch-IsGood join cmd = join-IsGood cmd.subject_handle
  dispatch-IsGood leave cmd = leave-IsGood cmd.subject_handle
  dispatch-IsGood post cmd =
      post-IsGood cmd.requester_handle cmd.payload cmd.content_type cmd.trace_id
  dispatch-IsGood replay cmd = replay-IsGood cmd.requester_handle cmd.since_seq
  dispatch-IsGood list_members cmd = list-IsGood cmd.request_id cmd.requester_handle
  dispatch-IsGood close cmd = close-IsGood cmd.requester_handle
  dispatch-IsGood unspecified cmd = good
  dispatch-IsGood create cmd = good

-- Every command, whichever writes fail, keeps the room it acts on good: its handles are distinct,
-- and its log's numbers rise, each that of its event, and stay below the room's next number. The
-- room is the stored one, and its next number does not wrap.
pub execute_command-IsGood :
    (id : String) (x : Entropy) (faults : Faults) (room : RoomInfo) (rm : RoomManager)
    (cmd : RoomCommand)
    → IsGood id rm.store
    → load_room id rm.store ≡ some room
    → room.next_seq + 1 < 2 ^ 64
    → IsGood id (execute_command x faults room cmd rm).1.store
unfolding execute_command
execute_command-IsGood id x faults room rm cmd good found fits =
    dispatch-IsGood id x faults room rm good found fits cmd.type cmd
