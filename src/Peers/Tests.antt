-- ===== src/Peers/Tests.antt =====
-- Keys and certificates that are trusted, and some that are not (internal/transport/peerverifier.go,
-- internal/identity/tofu.go).
use tailbus.Base.{◌≢◌, lookup, insert, ◌≡◌, refl, String, ok, [], ◌∷◌, contains, str_ne}
use tailbus.Resolver.{
  Resolver, new_resolver, update_peer_map, update_nodes, update_relays, update_rooms,
}
use tailbus.Coord.Registry.Samples.{one_node, newcomer, one_node-IsUnique, one_node-IsSound}
use tailbus.Coord.Registry.Calls.{
  register_node, check_conflicts, lookup_handle_in_team, find_in_team, get_nodes_by_team,
  with_handles,
}
use tailbus.Coord.Registry.{
  has_row, upsert_node, handles_of, manifests_of, insert_handles, delete_handles, NodeStore,
}
use tailbus.Coord.PeerMap.{Tables, build_for_team, peers_of, nodes_for, descriptions}
use tailbus.Coord.Client.{apply_update, add_peers, add_handles}
use tailbus.Peers.{verify_peer_key}
use tailbus.Peers.Verified.{Known, Fits, verify_peer_key-Known}
use tailbus.Peers.FromMap.{OneKeyAt, registered_trusted}

abbrev maps : Resolver
maps = record new_resolver {
  relays = record { node_id = "r"; public_key = "kr"; addr = "ar" } ∷ [];
}

verify_peer_key-Known_example :
    (verify_peer_key "ar" "kr" maps ≡ ok tt → Known (Fits "ar" "kr") maps)
    × (Known (λ a k. k ≡ "kr") maps → verify_peer_key "" "kr" maps ≡ ok tt)
verify_peer_key-Known_example = verify_peer_key-Known "ar" "kr" maps

abbrev tables : Tables
tables = record { nodes = one_node; rooms = record { rooms = []; members = [] } }

abbrev after : NodeStore
after = (register_node newcomer one_node).1

accepted : register_node newcomer one_node ≡ (ok tt, after)
unfolding register_node check_conflicts lookup_handle_in_team find_in_team upsert_node
    insert_handles delete_handles has_row
accepted = refl

abbrev told : Resolver
told = apply_update (build_for_team "t1" (record tables { nodes = after }) 1) new_resolver

other_address : ◌≢◌ {A = String} "a1" "a2"
other_address = str_ne "a1" "a2" refl

one_key : OneKeyAt "a2" "k2" told.handle_to
unfolding apply_update update_peer_map update_nodes update_relays update_rooms add_peers add_handles
    build_for_team peers_of nodes_for get_nodes_by_team with_handles handles_of manifests_of
    register_node check_conflicts lookup_handle_in_team find_in_team upsert_node insert_handles
    delete_handles has_row lookup insert descriptions
one_key = ((λ e. absurd (other_address e)), ((λ e. refl), ((λ e. refl), tt)))

registered_trusted_example :
    (verify_peer_key "" "k2" told ≡ ok tt) × (verify_peer_key "a2" "k2" told ≡ ok tt)
unfolding contains
registered_trusted_example =
    registered_trusted newcomer tables after "support" 1 new_resolver one_node-IsUnique
      one_node-IsSound (str_ne "t1" "" refl) refl accepted refl (str_ne "a2" "" refl) one_key
