-- ===== src/Coord/Client.antt =====
-- What the daemon makes of a peer map (WatchPeerMap of internal/daemon/coordclient.go): the maps of
-- its resolver.
pub mod Routes
mod Tests
use tailbus.Base.{
  ℕ, String, Bool, true, false, ◌==◌, Option, none, some, List, [], ◌∷◌, if◌then◌else◌, Dict,
  lookup, insert,
}
use tailbus.Resolver.{
  ServiceManifest, PeerInfo, NodeInfo, RelayInfo, RoomInfo, Resolver, update_peer_map, update_nodes,
  update_relays, update_rooms,
}
use tailbus.Coord.Registry.{described}
use tailbus.Coord.PeerMap
use tailbus.Coord.PeerMap.{PeerMapUpdate}
use tailbus.Rooms

abbrev pub or_described : Option String → ServiceManifest
or_described none = described ""
or_described (some d) = described d

-- The manifest, or the description of an old server, or nothing.
abbrev pub manifest_for : Option ServiceManifest → Option String → ServiceManifest
manifest_for none d = or_described d
manifest_for (some m) d = m

abbrev pub info_of : PeerMap.PeerInfo → String → PeerInfo
info_of p h = record {
  node_id = p.node_id;
  public_key = p.public_key;
  advertise_addr = p.advertise_addr;
  manifest = manifest_for (lookup h p.handle_manifests) (lookup h p.handle_descriptions);
}

unfoldable pub add_handles : PeerMap.PeerInfo → List String → Dict PeerInfo → Dict PeerInfo
add_handles p [] d = d
add_handles p (h ∷ hs) d = add_handles p hs (insert h (info_of p h) d)

-- The entries; a handle that two peers have is that of the later one.
unfoldable pub add_peers : List PeerMap.PeerInfo → Dict PeerInfo → Dict PeerInfo
add_peers [] d = d
add_peers (p ∷ ps) d = add_peers ps (add_handles p p.handles d)

unfoldable pub nodes_from : List PeerMap.PeerInfo → List NodeInfo
nodes_from [] = []
nodes_from (p ∷ ps) =
    record { node_id = p.node_id; advertise_addr = p.advertise_addr; public_key = p.public_key }
    ∷ nodes_from ps

unfoldable pub relays_from : List PeerMap.RelayInfo → List RelayInfo
relays_from [] = []
relays_from (r ∷ rs) =
    record { node_id = r.node_id; public_key = r.public_key; addr = r.addr } ∷ relays_from rs

abbrev pub room_from : Rooms.RoomInfo → RoomInfo
room_from room = record {
  room_id = room.room_id;
  title = room.title;
  created_by = room.created_by;
  home_node_id = room.home_node_id;
  members = room.members;
  status = room.status;
  next_seq = room.next_seq;
  created_at = room.created_at_unix;
  updated_at = room.updated_at_unix;
}

unfoldable pub add_rooms : List Rooms.RoomInfo → Dict RoomInfo → Dict RoomInfo
add_rooms [] d = d
add_rooms (room ∷ rooms) d = add_rooms rooms (insert room.room_id (room_from room) d)

-- One update that has been received.
unfoldable pub apply_update : PeerMapUpdate → Resolver → Resolver
apply_update u r = update_rooms (add_rooms u.rooms []) (
    update_relays (relays_from u.relays)
      (update_nodes (nodes_from u.peers) (update_peer_map (add_peers u.peers []) r)))
