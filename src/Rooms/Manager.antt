-- ===== src/Rooms/Manager.antt =====
-- internal/daemon/roommanager.go: the state of the room manager, and the helpers on rooms and
-- handles. UUIDs and the time come in as an `Entropy`, I/O failures as `Faults`.
use tailbus.Base.{
  ℕ, ◌≡◌, refl, String, Bool, true, false, ◌==◌, eq_iff, ◌||◌, Option, none, some, List, [], ◌∷◌,
  arith, inc_u64, Result, ok, err, contains, contains-cons_self, Distinct, if◌then◌else◌,
}
use tailbus.Resolver.{Resolver, NodeInfo, resolve_room}
use tailbus.Resolver
use tailbus.Rooms.{
  RoomInfo, RoomEvent, RoomEventType, RoomError, not_found, node_not_found, store_failed,
}
use tailbus.Rooms.Log.{RoomStore, load_room}

pub record Entropy : Type 0 where
  pub uuid : String
  pub now : ℕ

-- Which external writes fail during a command: the two to the database, and the upsert at the
-- coordination server.
pub record Faults : Type 0 where
  pub load_room : Bool
  pub store_room : Bool
  pub store_event : Bool
  pub upsert_room : Bool
  pub read_events : Bool

-- What leaves the manager: an event for the local agents, or for a peer's address.
pub data Outbound : Type 0 where
  deliver_local : RoomEvent → Outbound
  send_event : String → RoomEvent → Outbound

-- EmitRoomCreated, or emitRoomActivity, which has one case for each type of event.
pub data Activity : Type 0 where
  room_created : RoomInfo → Activity
  room_activity : RoomEvent → Activity

-- `deliverer` is the answer of DeliverRoomEventLocal, `has_coord` whether a coordination client is
-- set; `upserts`, `activity` and `outbox` collect what went out.
pub record RoomManager : Type 0 where
  pub node_id : String
  pub resolver : Resolver
  pub deliverer : RoomEvent → Bool
  pub store : RoomStore
  pub retention : ℕ
  pub has_coord : Bool
  pub upserts : List RoomInfo
  pub activity : List Activity
  pub outbox : List Outbound

abbrev pub default_room_event_retention : ℕ
default_room_event_retention = 10000

unfoldable pub is_room_member : RoomInfo → String → Bool
is_room_member room handle = contains room.members handle

unfoldable pub unique_loop : List String → List String → List String
unique_loop seen [] = []
unique_loop seen (h ∷ hs) =
    let skipped = unique_loop seen hs in
    let taken = h ∷ unique_loop (h ∷ seen) hs in
    if h == "" || contains seen h then skipped else taken

unfoldable pub unique_handles : List String → List String
unique_handles handles = unique_loop [] handles

unfoldable pub remove_handle : List String → String → List String
remove_handle [] target = []
remove_handle (h ∷ hs) target =
    if h == target then remove_handle hs target else h ∷ remove_handle hs target

unfoldable pub node_addr_in : String → List NodeInfo → Result RoomError String
node_addr_in node_id [] = err (node_not_found node_id)
node_addr_in node_id (n ∷ ns) =
    if n.node_id == node_id then ok n.advertise_addr else node_addr_in node_id ns

unfoldable pub node_addr : RoomManager → String → Result RoomError String
node_addr rm node_id = node_addr_in node_id rm.resolver.nodes

abbrev from_resolver : Resolver.RoomInfo → RoomInfo
from_resolver info = record {
  room_id = info.room_id;
  title = info.title;
  created_by = info.created_by;
  home_node_id = info.home_node_id;
  members = info.members;
  status = info.status;
  next_seq = info.next_seq;
  created_at_unix = info.created_at;
  updated_at_unix = info.updated_at;
}

abbrev or_resolver :
    Option RoomInfo → Result Resolver.NotFound Resolver.RoomInfo → Result RoomError RoomInfo
or_resolver (some room) r = ok room
or_resolver none (ok info) = ok (from_resolver info)
or_resolver none (err e) = err (not_found e)

-- The stored room, or else the resolver's.
unfoldable pub resolve_room_info : Faults → RoomManager → String → Result RoomError RoomInfo
resolve_room_info faults rm room_id =
    if faults.load_room
    then err store_failed
    else or_resolver (load_room room_id rm.store) (resolve_room room_id rm.resolver)

unfoldable pub next_event :
    Entropy
    → RoomInfo
    → RoomEventType
    → String
    → String
    → String
    → String
    → String
    → RoomEvent × RoomInfo
next_event x room type sender subject payload content_type trace_id = (
  record {
    event_id = x.uuid;
    room_id = room.room_id;
    room_seq = room.next_seq;
    sender_handle = sender;
    subject_handle = subject;
    payload = payload;
    content_type = content_type;
    sent_at_unix = x.now;
    type = type;
    trace_id = trace_id;
    members = room.members;
  },
  record room { next_seq = inc_u64 room.next_seq; updated_at_unix = x.now },
)

contains-unique_loop :
    (seen hs : List String) (h : String)
    → contains seen h ≡ true
    → contains (unique_loop seen hs) h ≡ false
unfolding unique_loop contains
contains-unique_loop seen [] h e = refl
contains-unique_loop seen (x ∷ hs) h e =
    ground (arith, contains-unique_loop seen hs h, contains-unique_loop (x ∷ seen) hs h, eq_iff x h)

unique_loop-Distinct : (seen hs : List String) → Distinct (unique_loop seen hs)
unfolding unique_loop
unique_loop-Distinct seen [] = tt
unique_loop-Distinct seen (x ∷ hs) = ground (
  arith,
  unique_loop-Distinct seen hs,
  unique_loop-Distinct (x ∷ seen) hs,
  contains-unique_loop (x ∷ seen) hs x,
  contains-cons_self x seen,
)

-- The members of a new room are distinct.
pub unique_handles-Distinct : (handles : List String) → Distinct (unique_handles handles)
unfolding unique_handles
unique_handles-Distinct handles = unique_loop-Distinct [] handles

pub contains-remove_handle :
    (hs : List String) (target h : String)
    → contains (remove_handle hs target) h ≡ (if target == h then false else contains hs h)
unfolding remove_handle contains
contains-remove_handle [] target h = ground arith
contains-remove_handle (x ∷ hs) target h =
    ground (arith, contains-remove_handle hs target h, eq_iff x target, eq_iff target h, eq_iff x h)

pub remove_handle-Distinct :
    (hs : List String) (target : String) → Distinct hs → Distinct (remove_handle hs target)
unfolding remove_handle
remove_handle-Distinct [] target d = tt
remove_handle-Distinct (x ∷ hs) target d =
    ground (arith, d.0, remove_handle-Distinct hs target d.1, contains-remove_handle hs target x)
