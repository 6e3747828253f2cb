-- ===== src/Coord/PeerMap/Tests.antt =====
-- Runs of the peer map (internal/coord/peermap.go). The hash stands for itself.
use tailbus.Base.{
  ℕ, ◌≡◌, refl, String, Bool, true, false, not, ◌==◌, some, [], ◌∷◌, lookup, insert, get_elem?,
}
use tailbus.Coord.Registry.Samples.{one_node}
use tailbus.Coord.PeerMap.{Tables, build_for_team}
use tailbus.Coord.PeerMap.Watch.{
  PeerMap, WatcherInfo, new_chan, new_peer_map, broadcast, add_watcher,
}
use tailbus.Coord.PeerMap.Built.{team_hash}
use tailbus.Coord.PeerMap.Keeps.{IsCalm, is_open}
use tailbus.Coord.PeerMap.Queues.{after_send}
use tailbus.Coord.PeerMap.Calm.{
  step, watch, unwatch, announce, run, run-IsCalm, new-IsCalm, watching_calm,
}
use tailbus.Coord.PeerMap.Sent.{broadcast_delivers, broadcast_settles}

abbrev tables : Tables
tables = record { nodes = one_node; rooms = record { rooms = []; members = [] } }

abbrev steady : String → Bool
steady t = false

-- "n1" watches the team "t1".
abbrev one_watcher : PeerMap
one_watcher = record new_peer_map {
  watchers = ("n1", record { ch = 0; team_id = "t1" }) ∷ [];
  chans = new_chan ∷ [];
}

one_watcher-IsCalm : IsCalm one_watcher
unfolding run step add_watcher insert
one_watcher-IsCalm = run-IsCalm (λ s. s) (watch "n1" "t1" ∷ []) new_peer_map new-IsCalm

watching_calm_example :
    let pm =
      run (λ s. s) (watch "n1" "t1" ∷ announce steady tables ∷ unwatch "n1" ∷ []) new_peer_map in
    (pm.panicked ≡ false)
    × ((node : String) (w : WatcherInfo)
        → lookup node pm.watchers ≡ some w
        → is_open w.ch pm ≡ true)
    × ((a b : String) (v w : WatcherInfo)
        → lookup a pm.watchers ≡ some v
        → lookup b pm.watchers ≡ some w
        → v.ch ≡ w.ch
        → a ≡ b)
watching_calm_example =
    watching_calm (λ s. s) (watch "n1" "t1" ∷ announce steady tables ∷ unwatch "n1" ∷ [])

broadcast_delivers_example :
    (v : ℕ) × (get_elem? (broadcast (λ s. s) steady tables one_watcher).1.chans 0
      ≡ some (
          after_send
            (not (team_hash (λ s. s) "t1" one_node == ""))
            (some (build_for_team "t1" tables v))
            new_chan))
unfolding lookup
broadcast_delivers_example =
    broadcast_delivers (λ s. s) steady tables one_watcher "n1" (record { ch = 0; team_id = "t1" })
      new_chan (λ t. refl) one_watcher-IsCalm refl refl

broadcast_settles_example :
    let pm = (broadcast (λ s. s) steady tables one_watcher).1 in
    get_elem?
      (broadcast
        (λ s. s)
        steady
        (record tables { rooms = record { rooms = []; members = ("r1", "ann" ∷ []) ∷ [] } })
        pm).1.chans
      0
    ≡ get_elem? pm.chans 0
unfolding lookup
broadcast_settles_example =
    broadcast_settles (λ s. s) steady tables
      (record { rooms = []; members = ("r1", "ann" ∷ []) ∷ [] }) one_watcher "n1"
      (record { ch = 0; team_id = "t1" }) (λ t. refl) one_watcher-IsCalm refl
