-- ===== src/Coord/Registry/Tests.antt =====
-- Runs of the registry (internal/coord/registry.go).
use tailbus.Base.{str_ne, ◌≡◌, refl, [], ◌∷◌, lookup, contains}
use tailbus.Coord.Registry.{NodeStore, NodeRecord, has_row, update_heartbeat}
use tailbus.Coord.Registry.Calls.{register_node, remove_stale_nodes, stale_ids, drop_stale}
use tailbus.Coord.Registry.Unique.{IsUnique, register_node-IsUnique}
use tailbus.Coord.Registry.Found.{heartbeat_steals}
use tailbus.Coord.Registry.Samples.{node, row, one_node, newcomer, one_node-IsUnique}

register_node-IsUnique_example : IsUnique (register_node newcomer one_node).1
register_node-IsUnique_example =
    register_node-IsUnique newcomer one_node one_node-IsUnique (λ n e t. cc)

-- The tables with the newcomer.
abbrev two_nodes : NodeStore
two_nodes = record {
  nodes = ("n1", node "t1") ∷ ("n2", node "t1") ∷ [];
  handles = row "sales" "n1" ∷ row "support" "n2" ∷ [];
}

heartbeat_steals_example : ¬ IsUnique (update_heartbeat "n2" ("sales" ∷ []) [] 30 two_nodes).1
unfolding has_row lookup contains
heartbeat_steals_example =
    heartbeat_steals "sales" "t1" "n2" "n1" ("sales" ∷ []) [] 30 two_nodes (refl, refl) refl
      (str_ne "n2" "n1" refl) refl

-- "n1" of the team "t1" and "n3" of no team both serve "sales".
abbrev in_and_out : NodeStore
in_and_out = record {
  nodes = ("n1", node "t1") ∷ ("n3", node "") ∷ [];
  handles = row "sales" "n1" ∷ row "sales" "n3" ∷ [];
}

abbrev leaver : NodeRecord
leaver = record newcomer { node_id = "n1"; handles = "sales" ∷ []; team_id = "" }

-- The last node that was not heard of is removed, with its handle.
reaped : remove_stale_nodes 15 one_node ≡ (1, record { nodes = []; handles = [] })
unfolding remove_stale_nodes stale_ids drop_stale contains
reaped = refl
