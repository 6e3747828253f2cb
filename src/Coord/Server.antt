-- ===== src/Coord/Server.antt =====
-- The calls of internal/coord/server.go that bring the parts together: a registration passes the
-- admission, which creates a personal team for a user without one, and the teams, writes to the registry,
-- and is broadcast. SHA-256 of the peer map, the ids drawn for a personal team, and which builds of the
-- peer map the database fails are parameters; the other queries succeed.
pub mod Members
pub mod Retries
mod Tests
use Prim.Native.Char.{code}
use Prim.Native.String.{◌++◌}
use text.Mathlib.Text.{starts_with}
use tailbus.Base.{
  ℕ, ◌+◌, ◌-◌, String, Bool, true, false, ◌==◌, ◌&&◌, ◌||◌, not, Option, none, some, List, [], ◌∷◌,
  Result, ok, err, inc_u64, ltb, eqb, if◌then◌else◌, Dict, lookup, insert,
}
use tailbus.Resolver.{ServiceManifest}
use tailbus.Rooms.{RoomInfo}
use tailbus.Coord.Tokens.{TokenError, AdmissionResult, Admission, Claims, validate_registration}
use tailbus.Coord.Teams.{Team, TeamStore, Reply, role_of, members_of, present, create_team}
use tailbus.Coord.Registry
use tailbus.Coord.Registry.{
  NodeRow, NodeStore, NodeRecord, RegistryError, described, update_heartbeat,
}
use tailbus.Coord.Registry.Calls.{set_node_team, remove_stale_nodes}
use tailbus.Coord.Registry.Calls
use tailbus.Coord.Directory
use tailbus.Coord.Directory.{DirectoryError, RoomTables, room_is_required}
use tailbus.Coord.PeerMap.{Tables, PeerMapUpdate, build_for_team}
use tailbus.Coord.PeerMap.Watch.{PeerMap, broadcast, force_broadcast, add_watcher}

pub record Server : Type 0 where
  pub admission : Admission
  pub teams : TeamStore
  pub tables : Tables
  pub peer_map : PeerMap

pub record RegisterNodeRequest : Type 0 where
  pub auth_token : String
  pub node_id : String
  pub public_key : String
  pub advertise_addr : String
  pub handles : List String
  pub handle_manifests : Dict ServiceManifest
  pub handle_descriptions : Dict String
  pub is_relay : Bool
  pub team_id : String

pub data ServerError : Type 0 where
  not_admitted : TokenError → ServerError
  not_a_member : String → ServerError
  registry_error : RegistryError → ServerError
  directory_error : DirectoryError → ServerError

pub record Registered : Type 0 where
  pub team_id : String
  pub user_email : String
  pub team_name : String

-- The manifests that stand for descriptions of an old client.
unfoldable pub synthesize : Dict String → Dict ServiceManifest
synthesize [] = []
synthesize ((h, d) ∷ ds) = if d == "" then synthesize ds else (h, described d) ∷ synthesize ds

abbrev pub manifests_or : Dict ServiceManifest → Dict String → Dict ServiceManifest
manifests_or [] ds = synthesize ds
manifests_or (m ∷ ms) ds = m ∷ ms

-- The team that is asked for, or else that of the user's token.
abbrev pub team_for : RegisterNodeRequest → AdmissionResult → String
team_for req res = if req.team_id == "" then res.team_id else req.team_id

-- Only a user has to be a member; a token without a user names any team.
abbrev pub outside_team : String → AdmissionResult → TeamStore → Bool
outside_team team res teams =
    not (team == "") && not (res.email == "") && role_of team res.email teams == ""

-- The ids of the two tries to create a personal team, and what the second adds to its name:
-- generateID draws them at random.
pub record Draws : Type 0 where
  pub first_id : String
  pub second_id : String
  pub suffix : String

-- Whether ListUserTeams finds one of some teams.
unfoldable pub has_team : String → Dict Team → TeamStore → Bool
has_team email [] st = false
has_team email ((id, t) ∷ rest) st =
    present (lookup email (members_of id st)) || has_team email rest st

unfoldable pub before_at : String → String
before_at String.[] = ""
before_at (String.◌∷◌ c s) =
    let rest = before_at s in if eqb (code c) b'@' then "" else String.◌∷◌ c rest

-- The part of an email before its @, unless it is empty.
abbrev pub personal_name : String → String
personal_name email = let name = before_at email in if name == "" then email else name

abbrev pub second_name : Draws → String → String
second_name draws email = personal_name email ++ "-" ++ draws.suffix

abbrev pub or_again : Draws → String → Reply → TeamStore
or_again draws email (ok _, st) = st
or_again draws email (err e, st) =
    (create_team draws.second_id (second_name draws email) email st).1

unfoldable pub ensure_personal_team : Draws → String → TeamStore → TeamStore
ensure_personal_team draws email st =
    if has_team email st.teams st
    then st
    else or_again draws email (create_team draws.first_id (personal_name email) email st)

abbrev pub by_jwt : Option (String → Option Claims) → String → Bool
by_jwt none token = false
by_jwt (some _) token = starts_with token "eyJ"

-- The teams after the admission, which has created one for the user of an accepted JWT.
abbrev pub with_personal : Bool → Result TokenError AdmissionResult → Draws → TeamStore → TeamStore
with_personal false res draws st = st
with_personal true (err e) draws st = st
with_personal true (ok res) draws st = ensure_personal_team draws res.email st

abbrev pub record_for : RegisterNodeRequest → String → ℕ → NodeRecord
record_for req team now = record {
  node_id = req.node_id;
  public_key = req.public_key;
  advertise_addr = req.advertise_addr;
  handles = req.handles;
  handle_manifests = manifests_or req.handle_manifests req.handle_descriptions;
  last_heartbeat = now;
  is_relay = req.is_relay;
  team_id = team;
}

abbrev pub name_of : Option Team → String
name_of none = ""
name_of (some t) = t.name

abbrev pub team_name : String → TeamStore → String
team_name team teams = if team == "" then "" else name_of (lookup team teams.teams)

module _ (sha256 : String → String) (fails : String → Bool) where
  abbrev pub announce : Server → Server
  announce s = record s { peer_map = (broadcast sha256 fails s.tables s.peer_map).1 }

  -- The end of a registration that the registry has accepted.
  abbrev pub finish_registration :
      RegisterNodeRequest
      → String
      → AdmissionResult
      → Result RegistryError (Unit {0}) × NodeStore
      → Server
      → Result ServerError Registered × Server
  finish_registration req team res (err e, nodes) s = (err (registry_error e), s)
  finish_registration req team res (ok _, nodes) s =
      let nodes' = if team == "" then nodes else set_node_team req.node_id team nodes in
      (
        ok (record { team_id = team; user_email = res.email; team_name = team_name team s.teams }),
        announce (record s { tables = record s.tables { nodes = nodes' } }),
      )

  abbrev pub register_admitted :
      RegisterNodeRequest
      → ℕ
      → Result TokenError AdmissionResult
      → Server
      → Result ServerError Registered × Server
  register_admitted req now (err e) s = (err (not_admitted e), s)
  register_admitted req now (ok res) s =
      let team = team_for req res in
      if outside_team team res s.teams
      then (err (not_a_member team), s)
      else (finish_registration req team res
          (Calls.register_node (record_for req team now) s.tables.nodes) s)

  unfoldable pub register_node :
      Draws → RegisterNodeRequest → ℕ → Server → Result ServerError Registered × Server
  register_node draws req now s =
      let (res, admission) = validate_registration req.auth_token req.node_id now s.admission in
      let teams = with_personal (by_jwt s.admission.jwt req.auth_token) res draws s.teams in
      register_admitted req now res (record s { admission = admission; teams = teams })

  abbrev pub finish_heartbeat : Result RegistryError (Unit {0}) × NodeStore → Server → Bool × Server
  finish_heartbeat (err e, nodes) s = (false, s)
  finish_heartbeat (ok _, nodes) s =
      (true, announce (record s { tables = record s.tables { nodes = nodes } }))

  unfoldable pub heartbeat :
      String → List String → Dict ServiceManifest → Dict String → ℕ → Server → Bool × Server
  heartbeat node hs ms ds now s =
      finish_heartbeat (update_heartbeat node hs (manifests_or ms ds) now s.tables.nodes) s

  abbrev pub finish_room :
      Result DirectoryError (Unit {0}) × RoomTables
      → Server
      → Result ServerError (Unit {0}) × Server
  finish_room (err e, rooms) s = (err (directory_error e), s)
  finish_room (ok _, rooms) s =
      (ok tt, announce (record s { tables = record s.tables { rooms = rooms } }))

  abbrev pub upsert_room :
      Option RoomInfo → String → Server → Result ServerError (Unit {0}) × Server
  upsert_room none team s = (err (directory_error room_is_required), s)
  upsert_room (some room) team s = finish_room (Directory.upsert_room room team s.tables.rooms) s

  -- One tick of the reaper, with the cutoff of its time.
  unfoldable pub reap : ℕ → Server → Server
  reap cutoff s =
      let (n, nodes) = remove_stale_nodes cutoff s.tables.nodes in
      let tables = record s.tables { nodes = nodes } in
      if ltb 0 n
      then record s {
        tables = tables;
        peer_map = (force_broadcast sha256 fails tables s.peer_map).1;
      }
      else record s { tables = tables }

abbrev pub stored_team : Option NodeRow → String
stored_team none = ""
stored_team (some n) = n.team_id

-- The team of a watch: the one asked for, or else that of the node's row.
abbrev pub watched_team : String → String → NodeStore → String
watched_team node team nodes = if team == "" then stored_team (lookup node nodes.nodes) else team

-- The start of WatchPeerMap: the map at once, then a channel for what comes later.
unfoldable pub watch_peer_map : String → String → Server → PeerMapUpdate × Server
watch_peer_map node team s =
    let t = watched_team node team s.tables.nodes in
    let v = inc_u64 s.peer_map.version in
    (
      build_for_team t s.tables v,
      record s { peer_map = add_watcher node t (record s.peer_map { version = v }) },
    )
