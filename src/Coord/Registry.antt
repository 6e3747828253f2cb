-- ===== src/Coord/Registry.antt =====
-- The tables of nodes and handles (internal/coord/store.go), and the registry on them
-- (internal/coord/registry.go). The nodes are a dictionary by their identifier; the handles are the
-- rows of their table, whose order is the one in which a query finds them. A manifest is stored as
-- its JSON text, and the text of a blank one reads as none; times are seconds.
pub mod Calls
mod Rows
pub mod Unique
pub mod Found
pub mod Sound
pub mod Samples
mod Tests
use tailbus.Base.{
  ℕ, ◌+◌, ◌-◌, String, Bool, true, false, ◌==◌, ◌&&◌, ◌||◌, not, Option, none, some, List, [], ◌∷◌,
  ◌++◌, map, Result, ok, err, ltb, if◌then◌else◌, Dict, lookup, insert, delete, keep, length,
  contains,
}
use tailbus.Resolver.{ServiceManifest}

pub record NodeRow : Type 0 where
  pub public_key : String
  pub advertise_addr : String
  pub last_heartbeat : ℕ
  pub is_relay : Bool
  pub team_id : String

pub record HandleRow : Type 0 where
  pub handle : String
  pub node_id : String
  pub description : String
  pub manifest : Option ServiceManifest

pub record NodeStore : Type 0 where
  pub nodes : Dict NodeRow
  pub handles : List HandleRow

pub record NodeRecord : Type 0 where
  pub node_id : String
  pub public_key : String
  pub advertise_addr : String
  pub handles : List String
  pub handle_manifests : Dict ServiceManifest
  pub last_heartbeat : ℕ
  pub is_relay : Bool
  pub team_id : String

pub data RegistryError : Type 0 where
  register_handle node_not_found no_rows : String → RegistryError
  claimed : String → String → RegistryError

abbrev empty_list {ℓ} : {A : Type ℓ} → List A → Bool
empty_list [] = true
empty_list (_ ∷ _) = false

-- Such a manifest has the text "{}".
abbrev is_blank : ServiceManifest → Bool
is_blank m =
    m.description == ""
    && empty_list m.commands
    && empty_list m.tags
    && m.version == ""
    && empty_list m.capabilities
    && empty_list m.domains
    && empty_list m.input_types
    && empty_list m.output_types

-- What is read back of a manifest that has been stored.
abbrev pub stored_manifest : Option ServiceManifest → Option ServiceManifest
stored_manifest none = none
stored_manifest (some m) = if is_blank m then none else some m

abbrev description_of : Option ServiceManifest → String
description_of none = ""
description_of (some m) = m.description

abbrev pub handle_row : String → Dict ServiceManifest → String → HandleRow
handle_row node manifests h =
    let m = lookup h manifests in
    record {
      handle = h;
      node_id = node;
      description = description_of m;
      manifest = stored_manifest m;
    }

-- DELETE FROM handles WHERE node_id = ?, which is also the cascade of a deleted node.
unfoldable pub delete_handles : String → List HandleRow → List HandleRow
delete_handles node rows = keep (λ r. not (r.node_id == node)) rows

-- The primary key is the handle with the node.
unfoldable pub has_row : String → String → List HandleRow → Bool
has_row h node [] = false
has_row h node (r ∷ rows) = (r.handle == h && r.node_id == node) || has_row h node rows

unfoldable pub insert_handles :
    String
    → Dict ServiceManifest
    → List String
    → List HandleRow
    → Result RegistryError (List HandleRow)
insert_handles node manifests [] rows = ok rows
insert_handles node manifests (h ∷ hs) rows =
    let rest = insert_handles node manifests hs (rows ++ handle_row node manifests h ∷ []) in
    if has_row h node rows then err (register_handle h) else rest

-- INSERT OR REPLACE takes a row with the same key out first.
unfoldable pub replace_handles :
    String → Dict ServiceManifest → List String → List HandleRow → List HandleRow
replace_handles node manifests [] rows = rows
replace_handles node manifests (h ∷ hs) rows =
    replace_handles node manifests hs (
      keep (λ r. not (r.handle == h && r.node_id == node)) rows ++ handle_row node manifests h ∷ [])

abbrev pub node_row : NodeRecord → NodeRow
node_row rec = record {
  public_key = rec.public_key;
  advertise_addr = rec.advertise_addr;
  last_heartbeat = rec.last_heartbeat;
  is_relay = rec.is_relay;
  team_id = rec.team_id;
}

abbrev pub Reply : Type 0
Reply = Result RegistryError (Unit {0}) × NodeStore

-- The end of the transaction of UpsertNode: a failed insert rolls all of it back.
abbrev pub commit_node : NodeRecord → NodeStore → Result RegistryError (List HandleRow) → Reply
commit_node rec st (err e) = (err e, st)
commit_node rec st (ok rows) =
    (ok tt, record { nodes = insert rec.node_id (node_row rec) st.nodes; handles = rows })

unfoldable pub upsert_node : NodeRecord → NodeStore → Reply
upsert_node rec st = commit_node rec st (
    insert_handles rec.node_id rec.handle_manifests rec.handles
      (delete_handles rec.node_id st.handles))

abbrev pub beat :
    String → List String → Dict ServiceManifest → ℕ → Option NodeRow → NodeStore → Reply
beat node hs manifests now none st = (err (node_not_found node), st)
beat node hs manifests now (some n) st = (
  ok tt,
  record {
    nodes = insert node (record n { last_heartbeat = now }) st.nodes;
    handles = replace_handles node manifests hs (delete_handles node st.handles);
  },
)

-- UpdateHeartbeat, and the registry's Heartbeat.
unfoldable pub update_heartbeat :
    String → List String → Dict ServiceManifest → ℕ → NodeStore → Reply
update_heartbeat node hs manifests now st = beat node hs manifests now (lookup node st.nodes) st

unfoldable pub handles_of : String → List HandleRow → List String
handles_of node [] = []
handles_of node (r ∷ rows) =
    if r.node_id == node then r.handle ∷ handles_of node rows else handles_of node rows

abbrev pub add_manifest :
    String → Option ServiceManifest → Dict ServiceManifest → Dict ServiceManifest
add_manifest h none d = d
add_manifest h (some m) d = insert h m d

-- The manifests of a node's rows. `read` is what a look-up takes of a row.
unfoldable pub manifests_of :
    (HandleRow → Option ServiceManifest)
    → String
    → List HandleRow
    → Dict ServiceManifest
    → Dict ServiceManifest
manifests_of read node [] d = d
manifests_of read node (r ∷ rows) d =
    manifests_of read node rows (if r.node_id == node then add_manifest r.handle (read r) d else d)

abbrev pub described : String → ServiceManifest
described d = record {
  description = d;
  commands = [];
  tags = [];
  version = "";
  capabilities = [];
  domains = [];
  input_types = [];
  output_types = [];
}

-- A row without a manifest falls back to its description.
abbrev pub manifest_or_description : HandleRow → Option ServiceManifest
manifest_or_description r = elim r.manifest [
  | none ↦ if r.description == "" then none else some (described r.description)
  | some m ↦ some m
]

abbrev pub plain_manifest : HandleRow → Option ServiceManifest
plain_manifest r = r.manifest
