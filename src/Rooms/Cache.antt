-- ===== src/Rooms/Cache.antt =====
-- internal/daemon/roommanager.go, cacheRoomFromEvent: the copy of a room that a node keeps of the
-- events it gets.
mod Tests
use tailbus.Base.{
  ℕ, ◌^◌, subst, ◌+◌, ◌<◌, ◌≤◌, ◌≡◌, refl, sym, ap, ◌∙◌, String, Bool, true, false, ◌==◌, ◌||◌, not,
  eq_iff, Option, none, some, List, arith, inl, inr, Bool-cases, Option-cases, Result, ok, err, leb,
  inc_u64, if◌then◌else◌, lookup-insert, lookup-insert_self,
}
use tailbus.Resolver.{PeerInfo, NotFound, resolve}
use tailbus.Rooms.{RoomInfo, RoomEvent, RoomEventType, room_closed}
use tailbus.Rooms.Log.{RoomStore, store_room, load_room}
use tailbus.Rooms.Manager.{RoomManager, Faults, resolve_room_info}
use tailbus.Rooms.Access.{no_faults}

abbrev pub node_of : Result NotFound PeerInfo → String
node_of (ok peer) = peer.node_id
node_of (err _) = ""

-- The node of the event's sender, as far as the resolver knows it.
unfoldable pub sender_node : RoomManager → RoomEvent → String
sender_node rm event =
    if event.sender_handle == "" then "" else node_of (resolve event.sender_handle rm.resolver)

abbrev pub is_close : RoomEventType → Bool
is_close room_closed = true
is_close _ = false

-- The copy after the event, from the copy before it, if there was one.
unfoldable pub updated_copy : String → RoomEvent → Option RoomInfo → RoomInfo
updated_copy home event none = record {
  room_id = event.room_id;
  title = "";
  created_by = "";
  home_node_id = home;
  members = event.members;
  status = if is_close event.type then "closed" else "open";
  next_seq = inc_u64 event.room_seq;
  created_at_unix = event.sent_at_unix;
  updated_at_unix = event.sent_at_unix;
}
updated_copy home event (some room) = record room {
  home_node_id = if room.home_node_id == "" then home else room.home_node_id;
  members = event.members;
  status = if is_close event.type then "closed" else room.status;
  next_seq = if leb room.next_seq event.room_seq then inc_u64 event.room_seq else room.next_seq;
  updated_at_unix = event.sent_at_unix;
}

-- A failed write is only logged.
unfoldable pub cache_room : Faults → RoomInfo → RoomManager → RoomManager
cache_room faults room rm =
    if room.room_id == "" || faults.store_room
    then rm
    else record rm { store = store_room room rm.store }

unfoldable pub cache_room_from_event : Faults → RoomEvent → RoomManager → RoomManager
cache_room_from_event faults event rm =
    let room = updated_copy (sender_node rm event) event (load_room event.room_id rm.store) in
    if event.room_id == "" || faults.load_room then rm else cache_room faults room rm

cache_room-load :
    (room : RoomInfo) (rm : RoomManager)
    → (room.room_id == "") ≡ false
    → load_room room.room_id (cache_room no_faults room rm).store ≡ some room
unfolding cache_room load_room store_room
cache_room-load room rm named = elim (Bool-cases (room.room_id == "" || false)) [
  | inl e ↦ ground (arith, e, named)
  | inr e ↦ rw (e, cache_room) (lookup-insert_self room.room_id room rm.store.rooms)
]

-- What the node then knows of a room that it had stored.
load-cached :
    (event : RoomEvent) (room : RoomInfo) (rm : RoomManager)
    → (event.room_id == "") ≡ false
    → load_room event.room_id rm.store ≡ some room
    → room.room_id ≡ event.room_id
    → load_room event.room_id (cache_room_from_event no_faults event rm).store
      ≡ some (updated_copy (sender_node rm event) event (some room))
unfolding cache_room_from_event updated_copy
load-cached event room rm named found same = elim (Bool-cases (event.room_id == "" || false)) [
  | inl e ↦ ground (arith, e, named)
  | inr e ↦
      rw (e, cache_room_from_event, found)
        (subst
          (λ id.
            load_room id
              (cache_room no_faults (updated_copy (sender_node rm event) event (some room))
                rm).store
            ≡ some (updated_copy (sender_node rm event) event (some room)))
          same
          (cache_room-load (updated_copy (sender_node rm event) event (some room)) rm
            (ground (arith, eq_iff room.room_id event.room_id, same, named))))
]

-- A copy of a room only goes forward: its next number does not fall and is past the event's, and a
-- closed room is not opened again, whatever the order in which the events come.
pub cached-forward :
    (event : RoomEvent) (room : RoomInfo) (rm : RoomManager)
    → (event.room_id == "") ≡ false
    → load_room event.room_id rm.store ≡ some room
    → room.room_id ≡ event.room_id
    → event.room_seq + 1 < 2 ^ 64
    → (copy : RoomInfo) × (load_room event.room_id (cache_room_from_event no_faults event rm).store
        ≡ some copy)
      × (room.next_seq ≤ copy.next_seq)
      × (event.room_seq < copy.next_seq)
      × ((room.status == "closed") ≡ true → (copy.status == "closed") ≡ true)
unfolding updated_copy
cached-forward event room rm named found same fits = (
  updated_copy (sender_node rm event) event (some room),
  load-cached event room rm named found same,
  ground (arith, fits),
  ground (arith, fits),
  still (is_close event.type),
)
  where
    still :
        (b : Bool)
        → (room.status == "closed") ≡ true
        → ((if b then "closed" else room.status) == "closed") ≡ true
    still true h = refl
    still false h = h

-- The members of a copy are those of the last event that came, be it older than what the copy knows
-- already: an event that was delayed brings back members that have left since.
pub cached_members_overwritten :
    (event : RoomEvent) (room : RoomInfo) (rm : RoomManager)
    → (event.room_id == "") ≡ false
    → load_room event.room_id rm.store ≡ some room
    → room.room_id ≡ event.room_id
    → event.room_seq < room.next_seq
    → (copy : RoomInfo) × (load_room event.room_id (cache_room_from_event no_faults event rm).store
        ≡ some copy)
      × (copy.members ≡ event.members)
      × (copy.next_seq ≡ room.next_seq)
unfolding updated_copy
cached_members_overwritten event room rm named found same older = (
  updated_copy (sender_node rm event) event (some room),
  load-cached event room rm named found same,
  refl,
  ground (arith, older),
)

-- After an event of a room that it did not know, a node looks for the room at the node of the event's
-- sender, which need not be the node that keeps the room.
pub cached_home :
    (event : RoomEvent) (peer : PeerInfo) (rm : RoomManager)
    → (event.room_id == "") ≡ false
    → load_room event.room_id rm.store ≡ none
    → (event.sender_handle == "") ≡ false
    → resolve event.sender_handle rm.resolver ≡ ok peer
    → (copy : RoomInfo) × (load_room event.room_id (cache_room_from_event no_faults event rm).store
        ≡ some copy)
      × (copy.home_node_id ≡ peer.node_id)
unfolding cache_room_from_event updated_copy sender_node resolve_room_info
cached_home event peer rm named absent sent known =
    elim (Bool-cases (event.room_id == "" || false)) [
      | inl e ↦ absurd (clash e)
      | inr e ↦ (
        updated_copy (sender_node rm event) event none,
        rw (e, cache_room_from_event, absent)
            (cache_room-load (updated_copy (sender_node rm event) event none) rm named),
        rw (sent, sender_node, known) refl,
      )
    ]
  where
    found_room :
        (id : String) (m : RoomManager) (copy : RoomInfo)
        → load_room id m.store ≡ some copy
        → resolve_room_info no_faults m id ≡ ok copy
    found_room id m copy h = rw (h, resolve_room_info) refl

    clash : (event.room_id == "" || false) ≡ true → ⊥
    clash e = ground (arith, e, named)
