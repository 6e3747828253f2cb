-- ===== src/Rooms/Publish.antt =====
-- internal/daemon/roommanager.go, publishEvent: who gets a room event.
pub mod Reach
use tailbus.Base.{
  ℕ, ◌+◌, ◌≡◌, refl, String, Bool, true, false, ◌==◌, eq_iff, ◌||◌, ◌&&◌, Option, none, some, List,
  [], ◌∷◌, ◌++◌, arith, Result, ok, err, contains, contains-append, Distinct, if◌then◌else◌, not,
}
use tailbus.Resolver.{Resolver, PeerInfo, NotFound, resolve}
use tailbus.Rooms.{RoomEvent}
use tailbus.Rooms.Manager.{RoomManager, Outbound, deliver_local, send_event}

-- What the loop does with a member: nothing for the sender and for one that does not resolve, a
-- local delivery for one on this node, and a message to the peer's address for any other.
pub data Target : Type 0 where
  skipped local_agents : Target
  peer_at : String → Target

abbrev pub target_of : RoomManager → Result NotFound PeerInfo → Target
target_of rm (err _) = skipped
target_of rm (ok peer) =
    if peer.node_id == rm.node_id then local_agents else peer_at peer.advertise_addr

unfoldable pub target : RoomManager → RoomEvent → String → Target
target rm event m =
    if m == event.sender_handle then skipped else target_of rm (resolve m rm.resolver)

-- The loop over the members: what went out, and whether a local agent took the event. `sent`
-- holds the addresses served so far.
unfoldable pub publish_loop :
    RoomManager → RoomEvent → List String → Bool → List String → List Outbound × Bool
publish_loop rm event sent local [] = ([], local)
publish_loop rm event sent local (m ∷ ms) = elim (target rm event m) [
  | skipped ↦ publish_loop rm event sent local ms
  | local_agents ↦
      let (out, taken) = publish_loop rm event sent (rm.deliverer event || local) ms in
      (deliver_local event ∷ out, taken)
  | peer_at addr ↦
      let again = publish_loop rm event sent local ms in
      let first = publish_loop rm event (addr ∷ sent) local ms in
      if contains sent addr then again else (send_event addr event ∷ first.0, first.1)
]

unfoldable pub publish_event : RoomManager → RoomEvent → RoomManager
publish_event rm event =
    let (out, local) = publish_loop rm event [] false event.members in
    record rm { outbox = rm.outbox ++ (if local then out else out ++ deliver_local event ∷ []) }
