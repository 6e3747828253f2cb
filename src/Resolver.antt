-- ===== src/Resolver.antt =====
-- internal/handle/resolver.go: the cached peer map. A map is an association list, and its order is
-- the order of a `range`. Byte slices are texts: the code only compares them.
pub mod Discovery
use tailbus.Base.{
  ℕ, String, Option, none, some, List, [], ◌∷◌, Result, from_option, contains, if◌then◌else◌, Dict,
  lookup,
}

pub record CommandSpec : Type 0 where
  pub name : String
  pub description : String
  pub parameters_schema : String

pub record ServiceManifest : Type 0 where
  pub description : String
  pub commands : List CommandSpec
  pub tags : List String
  pub version : String
  pub capabilities : List String
  pub domains : List String
  pub input_types : List String
  pub output_types : List String

pub record PeerInfo : Type 0 where
  pub node_id : String
  pub public_key : String
  pub advertise_addr : String
  pub manifest : ServiceManifest

pub record RelayInfo : Type 0 where
  pub node_id : String
  pub public_key : String
  pub addr : String

pub record NodeInfo : Type 0 where
  pub node_id : String
  pub advertise_addr : String
  pub public_key : String

pub record RoomInfo : Type 0 where
  pub room_id : String
  pub title : String
  pub created_by : String
  pub home_node_id : String
  pub members : List String
  pub status : String
  pub next_seq : ℕ
  pub created_at : ℕ
  pub updated_at : ℕ

pub record Resolver : Type 0 where
  pub handle_to : Dict PeerInfo
  pub nodes : List NodeInfo
  pub relays : List RelayInfo
  pub rooms : Dict RoomInfo

pub data NotFound : Type 0 where
  room_not_found handle_not_found : String → NotFound

abbrev pub new_resolver : Resolver
new_resolver = record { handle_to = []; nodes = []; relays = []; rooms = [] }

unfoldable pub update_peer_map : Dict PeerInfo → Resolver → Resolver
update_peer_map entries r = record r { handle_to = entries }

unfoldable pub update_nodes : List NodeInfo → Resolver → Resolver
update_nodes nodes r = record r { nodes = nodes }

unfoldable pub update_relays : List RelayInfo → Resolver → Resolver
update_relays relays r = record r { relays = relays }

unfoldable pub update_rooms : Dict RoomInfo → Resolver → Resolver
update_rooms rooms r = record r { rooms = rooms }

unfoldable pub resolve_room : String → Resolver → Result NotFound RoomInfo
resolve_room room_id r = from_option (lookup room_id r.rooms) (room_not_found room_id)

unfoldable pub rooms_with : String → Dict RoomInfo → List RoomInfo
rooms_with handle [] = []
rooms_with handle ((id, room) ∷ rest) =
    if contains room.members handle then room ∷ rooms_with handle rest else rooms_with handle rest

unfoldable pub list_rooms_for_member : String → Resolver → List RoomInfo
list_rooms_for_member handle r = rooms_with handle r.rooms

unfoldable pub resolve : String → Resolver → Result NotFound PeerInfo
resolve handle r = from_option (lookup handle r.handle_to) (handle_not_found handle)

unfoldable pub get_manifest : String → Resolver → Option ServiceManifest
get_manifest handle r = elim (lookup handle r.handle_to) [
  | none ↦ none
  | some info ↦ some info.manifest
]
