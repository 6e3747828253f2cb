-- ===== src/Coord/Registry/Calls.antt =====
-- The look-ups, the removals and the listings of internal/coord/store.go, and the registration of a
-- node (internal/coord/registry.go).
use tailbus.Base.{
  ℕ, String, Bool, false, ◌==◌, ◌&&◌, ◌||◌, not, Option, none, some, List, [], ◌∷◌, Result, ok, err,
  ltb, if◌then◌else◌, Dict, lookup, insert, delete, keep, length, contains,
}
use tailbus.Resolver.{ServiceManifest}
use tailbus.Coord.Registry.{
  NodeRow, HandleRow, NodeStore, NodeRecord, RegistryError, no_rows, claimed, delete_handles, Reply,
  upsert_node, handles_of, manifests_of, manifest_or_description, plain_manifest,
}

-- SELECT node_id FROM handles WHERE handle = ?, of which the code reads one row. The query fixes no order:
-- the first row in the order of insertion stands for the one that the database picks.
unfoldable pub find_handle : String → List HandleRow → Option String
find_handle h [] = none
find_handle h (r ∷ rows) = if r.handle == h then some r.node_id else find_handle h rows

abbrev pub in_team : String → Option NodeRow → Bool
in_team team none = false
in_team team (some n) = n.team_id == team

-- The join of the handles with the nodes of a team.
unfoldable pub find_in_team : String → String → Dict NodeRow → List HandleRow → Option String
find_in_team h team nodes [] = none
find_in_team h team nodes (r ∷ rows) =
    if r.handle == h && in_team team (lookup r.node_id nodes)
    then some r.node_id
    else find_in_team h team nodes rows

abbrev pub record_of :
    String → NodeRow → (HandleRow → Option ServiceManifest) → List HandleRow → NodeRecord
record_of node n read rows = record {
  node_id = node;
  public_key = n.public_key;
  advertise_addr = n.advertise_addr;
  handles = handles_of node rows;
  handle_manifests = manifests_of read node rows [];
  last_heartbeat = n.last_heartbeat;
  is_relay = n.is_relay;
  team_id = n.team_id;
}

abbrev pub load :
    String → Option NodeRow → List HandleRow → Result RegistryError (Option NodeRecord)
load node none rows = err (no_rows node)
load node (some n) rows = ok (some (record_of node n plain_manifest rows))

-- LookupHandle does not read the columns of the relay and the team.
abbrev pub unscoped : NodeRow → NodeRow
unscoped n = record n { is_relay = false; team_id = "" }

abbrev pub map_row : Option NodeRow → Option NodeRow
map_row none = none
map_row (some n) = some (unscoped n)

abbrev pub load_found :
    (Option NodeRow → Option NodeRow)
    → Option String
    → NodeStore
    → Result RegistryError (Option NodeRecord)
load_found columns none st = ok none
load_found columns (some node) st = load node (columns (lookup node st.nodes)) st.handles

unfoldable pub lookup_handle : String → NodeStore → Result RegistryError (Option NodeRecord)
lookup_handle h st = load_found map_row (find_handle h st.handles) st

unfoldable pub lookup_handle_in_team :
    String → String → NodeStore → Result RegistryError (Option NodeRecord)
unfolding lookup_handle
lookup_handle_in_team h team st =
    if team == ""
    then lookup_handle h st
    else (load_found (λ n. n) (find_in_team h team st.nodes st.handles) st)

abbrev pub conflict :
    String
    → String
    → Result RegistryError (Option NodeRecord)
    → Result RegistryError (Unit {0})
    → Result RegistryError (Unit {0})
conflict h node (err e) rest = err e
conflict h node (ok none) rest = rest
conflict h node (ok (some rec)) rest =
    if rec.node_id == node then rest else err (claimed h rec.node_id)

-- The check of RegisterNode, for each handle in turn.
unfoldable pub check_conflicts :
    List String → String → String → NodeStore → Result RegistryError (Unit {0})
check_conflicts [] node team st = ok tt
check_conflicts (h ∷ hs) node team st =
    conflict h node (lookup_handle_in_team h team st) (check_conflicts hs node team st)

abbrev pub upsert_checked : Result RegistryError (Unit {0}) → NodeRecord → NodeStore → Reply
upsert_checked (err e) rec st = (err e, st)
upsert_checked (ok _) rec st = upsert_node rec st

-- The record's time is that of the call.
unfoldable pub register_node : NodeRecord → NodeStore → Reply
register_node rec st =
    upsert_checked (check_conflicts rec.handles rec.node_id rec.team_id st) rec st

unfoldable pub remove_node : String → NodeStore → NodeStore
remove_node node st = record {
  nodes = delete node st.nodes;
  handles = delete_handles node st.handles;
}

-- DELETE FROM nodes WHERE last_heartbeat < ?
unfoldable pub drop_stale : ℕ → Dict NodeRow → Dict NodeRow
drop_stale cutoff nodes = keep (λ e. not (ltb e.1.last_heartbeat cutoff)) nodes

unfoldable pub stale_ids : ℕ → Dict NodeRow → List String
stale_ids cutoff [] = []
stale_ids cutoff ((id, n) ∷ nodes) =
    if ltb n.last_heartbeat cutoff then id ∷ stale_ids cutoff nodes else stale_ids cutoff nodes

-- The number of the nodes that are removed, with the rest; the handles go by the cascade.
unfoldable pub remove_stale_nodes : ℕ → NodeStore → ℕ × NodeStore
remove_stale_nodes cutoff st =
    let gone = stale_ids cutoff st.nodes in
    (
      length gone,
      record {
        nodes = drop_stale cutoff st.nodes;
        handles = keep (λ r. not (contains gone r.node_id)) st.handles;
      },
    )

abbrev pub move_to : String → String → Option NodeRow → NodeStore → NodeStore
move_to node team none st = st
move_to node team (some n) st = record st {
  nodes = insert node (record n { team_id = team }) st.nodes;
}

unfoldable pub set_node_team : String → String → NodeStore → NodeStore
set_node_team node team st = move_to node team (lookup node st.nodes) st

-- The nodes with their handles, in the order of the table.
unfoldable pub with_handles : Dict NodeRow → List HandleRow → List NodeRecord
with_handles [] rows = []
with_handles ((id, n) ∷ nodes) rows =
    record_of id n manifest_or_description rows ∷ with_handles nodes rows

unfoldable pub get_all_nodes : NodeStore → List NodeRecord
get_all_nodes st = with_handles st.nodes st.handles

abbrev pub team_or_relay : String → (String × NodeRow) → Bool
team_or_relay team e = e.1.team_id == team || e.1.is_relay

unfoldable pub get_nodes_by_team : String → NodeStore → List NodeRecord
get_nodes_by_team team st = with_handles (keep (team_or_relay team) st.nodes) st.handles
