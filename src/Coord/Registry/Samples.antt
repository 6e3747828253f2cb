-- ===== src/Coord/Registry/Samples.antt =====
-- Sample tables of nodes (internal/coord/store.go).
use tailbus.Base.{◌≡◌, refl, String, true, false, ◌==◌, none, [], ◌∷◌, lookup, arith, eq_iff}
use tailbus.Coord.Registry.{NodeRow, HandleRow, NodeStore, NodeRecord, has_row}
use tailbus.Coord.Registry.Unique.{IsUnique}
use tailbus.Coord.Registry.Sound.{IsSound}

abbrev pub node : String → NodeRow
node team = record {
  public_key = "k1";
  advertise_addr = "a1";
  last_heartbeat = 10;
  is_relay = false;
  team_id = team;
}

abbrev pub row : String → String → HandleRow
row h id = record { handle = h; node_id = id; description = ""; manifest = none }

-- The node "n1" of the team "t1" serves "sales".
abbrev pub one_node : NodeStore
one_node = record { nodes = ("n1", node "t1") ∷ []; handles = row "sales" "n1" ∷ [] }

abbrev pub newcomer : NodeRecord
newcomer = record {
  node_id = "n2";
  public_key = "k2";
  advertise_addr = "a2";
  handles = "support" ∷ "billing" ∷ [];
  handle_manifests = [];
  last_heartbeat = 20;
  is_relay = false;
  team_id = "t1";
}

only_n1 : (h id : String) → has_row h id one_node.handles ≡ true → "n1" ≡ id
unfolding has_row
only_n1 h id e = ground (arith, e, eq_iff "n1" id)

pub one_node-IsUnique : IsUnique one_node
one_node-IsUnique h team a b sa sb = ground (arith, only_n1 h a sa.0, only_n1 h b sb.0)

eq_of_test : (id : String) → "n1" ≡ id → ("n1" == id) ≡ true
eq_of_test id e = (eq_iff "n1" id).1 e

pub one_node-IsSound : IsSound one_node
unfolding lookup
one_node-IsSound = record {
  nodes_once = (refl, tt);
  linked = λ h id e. rw (eq_of_test id (only_n1 h id e)) refl;
}
