-- ===== src/Coord/Client/Tests.antt =====
-- A registration that reaches the resolver of a daemon (internal/daemon/coordclient.go).
use tailbus.Base.{◌≡◌, refl, String, false, true, some, ok, err, [], ◌⊎◌, lookup, contains, str_ne}
use tailbus.Resolver
use tailbus.Resolver.{new_resolver, resolve}
use tailbus.Coord.Registry.{
  NodeRow, has_row, upsert_node, insert_handles, delete_handles, NodeStore,
}
use tailbus.Coord.Registry.Calls.{
  register_node, check_conflicts, lookup_handle_in_team, find_in_team,
}
use tailbus.Coord.Registry.Samples.{one_node, newcomer, one_node-IsUnique, one_node-IsSound}
use tailbus.Coord.PeerMap.{Tables}
use tailbus.Coord.Client.Routes.{resolve-register_node, resolve-build_for_team, resolved}

abbrev tables : Tables
tables = record { nodes = one_node; rooms = record { rooms = []; members = [] } }

abbrev after : NodeStore
after = (register_node newcomer one_node).1

accepted : register_node newcomer one_node ≡ (ok tt, after)
unfolding register_node check_conflicts lookup_handle_in_team find_in_team upsert_node
    insert_handles delete_handles has_row
accepted = refl

resolve-register_node_example :
    (info : Resolver.PeerInfo) × (resolved "support" "t1"
        (record tables { nodes = after })
        1
        new_resolver
      ≡ ok info)
    × (info.node_id ≡ "n2")
    × (info.public_key ≡ "k2")
    × (info.advertise_addr ≡ "a2")
unfolding contains
resolve-register_node_example =
    resolve-register_node newcomer tables after "support" 1 new_resolver one_node-IsUnique
      one_node-IsSound (str_ne "t1" "" refl) refl accepted refl

resolve-build_for_team_example :
    ((info : Resolver.PeerInfo) × (resolved "sales" "t1" tables 1 new_resolver ≡ ok info)
      × ((n : NodeRow) × (lookup info.node_id one_node.nodes ≡ some n)
          × (n.team_id ≡ "t1")
          × (n.is_relay ≡ false)
          × (has_row "sales" info.node_id one_node.handles ≡ true)
          × (info.public_key ≡ n.public_key)
          × (info.advertise_addr ≡ n.advertise_addr)))
    ⊎ ((resolved "sales" "t1" tables 1 new_resolver ≡ err (Resolver.handle_not_found "sales"))
        × ((id : String) (n : NodeRow)
            → lookup id one_node.nodes ≡ some n
            → n.team_id ≡ "t1"
            → n.is_relay ≡ false
            → has_row "sales" id one_node.handles ≡ false))
unfolding lookup
resolve-build_for_team_example =
    resolve-build_for_team "sales" "t1" tables 1 new_resolver (str_ne "t1" "" refl) (refl, tt)
