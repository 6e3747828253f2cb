-- ===== src/Coord/PeerMap.antt =====
-- internal/coord/peermap.go: the peer maps of the teams, and the watchers that they are sent to. A
-- channel is a number into `chans`; SHA-256 is a parameter, and so are the builds that fail. The
-- version, an int64, is kept as its bit pattern.
pub mod Watch
mod Keeps
pub mod Calm
mod Built
mod Queues
pub mod Sent
mod Tests
use Prim.Native.String.{compare}
use text.Mathlib.Text.{is_lt}
use tailbus.Base.{
  ℕ, ◌+◌, String, Bool, true, false, ◌==◌, ◌&&◌, ◌||◌, not, Option, none, some, List, [], ◌∷◌, ◌++◌,
  map, ltb, if◌then◌else◌, Dict, lookup, insert, delete, contains, keep, concat, length, inc_u64,
}
use tailbus.Resolver.{ServiceManifest}
use tailbus.Rooms.{RoomInfo}
use tailbus.Coord.Registry.{NodeRecord, NodeStore}
use tailbus.Coord.Registry.Calls.{get_all_nodes, get_nodes_by_team}
use tailbus.Coord.Directory.{RoomTables, list_rooms_for_handle, insert_handle, sort_handles}

pub record PeerInfo : Type 0 where
  pub node_id : String
  pub public_key : String
  pub advertise_addr : String
  pub handles : List String
  pub last_heartbeat_unix : ℕ
  pub handle_descriptions : Dict String
  pub handle_manifests : Dict ServiceManifest

pub record RelayInfo : Type 0 where
  pub node_id : String
  pub public_key : String
  pub addr : String

pub record PeerMapUpdate : Type 0 where
  pub peers : List PeerInfo
  pub relays : List RelayInfo
  pub rooms : List RoomInfo
  pub version : ℕ

-- The database of the server: its nodes and its rooms.
pub record Tables : Type 0 where
  pub nodes : NodeStore
  pub rooms : RoomTables

-- The descriptions that are not empty, for old clients.
unfoldable pub descriptions : Dict ServiceManifest → Dict String
descriptions [] = []
descriptions ((h, m) ∷ ms) =
    if m.description == "" then descriptions ms else (h, m.description) ∷ descriptions ms

abbrev pub peer_of : NodeRecord → PeerInfo
peer_of n = record {
  node_id = n.node_id;
  public_key = n.public_key;
  advertise_addr = n.advertise_addr;
  handles = n.handles;
  last_heartbeat_unix = n.last_heartbeat;
  handle_descriptions = descriptions n.handle_manifests;
  handle_manifests = n.handle_manifests;
}

abbrev pub relay_of : NodeRecord → RelayInfo
relay_of n = record { node_id = n.node_id; public_key = n.public_key; addr = n.advertise_addr }

unfoldable pub peers_of : List NodeRecord → List PeerInfo
peers_of [] = []
peers_of (n ∷ ns) = if n.is_relay then peers_of ns else peer_of n ∷ peers_of ns

unfoldable pub relays_of : List NodeRecord → List RelayInfo
relays_of [] = []
relays_of (n ∷ ns) = if n.is_relay then relay_of n ∷ relays_of ns else relays_of ns

unfoldable pub nodes_for : String → NodeStore → List NodeRecord
nodes_for team st = if team == "" then get_all_nodes st else get_nodes_by_team team st

-- The update with the version that has been drawn for it. Build is that of no team.
unfoldable pub build_for_team : String → Tables → ℕ → PeerMapUpdate
build_for_team team st version = record {
  peers = peers_of (nodes_for team st.nodes);
  relays = relays_of (nodes_for team st.nodes);
  rooms = list_rooms_for_handle "" team st.rooms;
  version = version;
}

unfoldable pub insert_peer : PeerInfo → List PeerInfo → List PeerInfo
insert_peer p [] = p ∷ []
insert_peer p (q ∷ qs) =
    let rest = insert_peer p qs in
    if is_lt (compare q.node_id p.node_id) then q ∷ rest else p ∷ q ∷ qs

unfoldable pub sort_peers : List PeerInfo → List PeerInfo
sort_peers [] = []
sort_peers (p ∷ ps) = insert_peer p (sort_peers ps)

unfoldable pub insert_relay : RelayInfo → List RelayInfo → List RelayInfo
insert_relay p [] = p ∷ []
insert_relay p (q ∷ qs) =
    let rest = insert_relay p qs in
    if is_lt (compare q.node_id p.node_id) then q ∷ rest else p ∷ q ∷ qs

unfoldable pub sort_relays : List RelayInfo → List RelayInfo
sort_relays [] = []
sort_relays (p ∷ ps) = insert_relay p (sort_relays ps)

-- strings.Join(handles, ",")
unfoldable pub join_handles : List String → String
join_handles [] = ""
join_handles (h ∷ []) = h
join_handles (h ∷ k ∷ hs) = concat h (concat "," (join_handles (k ∷ hs)))

abbrev pub peer_line : PeerInfo → String
peer_line p = concat p.node_id (
    concat "|"
      (concat p.advertise_addr (concat "|" (concat (join_handles (sort_handles p.handles)) "\n"))))

abbrev pub relay_line : RelayInfo → String
relay_line r = concat "relay|" (concat r.node_id (concat "|" (concat r.addr "\n")))

unfoldable pub peer_lines : List PeerInfo → String
peer_lines [] = ""
peer_lines (p ∷ ps) = concat (peer_line p) (peer_lines ps)

unfoldable pub relay_lines : List RelayInfo → String
relay_lines [] = ""
relay_lines (r ∷ rs) = concat (relay_line r) (relay_lines rs)

-- What is hashed: neither the heartbeats, nor the keys, nor the rooms.
unfoldable pub topology : List PeerInfo → List RelayInfo → String
topology peers relays = concat (peer_lines (sort_peers peers)) (relay_lines (sort_relays relays))

unfoldable pub peer_hash : (String → String) → PeerMapUpdate → String
peer_hash sha256 u = sha256 (topology u.peers u.relays)
