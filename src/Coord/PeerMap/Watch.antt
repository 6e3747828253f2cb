-- ===== src/Coord/PeerMap/Watch.antt =====
-- The watchers of internal/coord/peermap.go, and the broadcasts to them. A send to a closed channel
-- crashes the server, and so does a second close; a nil update is none.
use tailbus.Base.{
  ℕ, String, Bool, true, false, ◌==◌, Option, none, some, List, [], ◌∷◌, ◌++◌, ltb, if◌then◌else◌,
  Dict, lookup, insert, delete, contains, length, inc_u64, get_elem?, set,
}
use tailbus.Coord.PeerMap.{PeerMapUpdate, Tables, build_for_team, peer_hash}

pub record Chan : Type 0 where
  pub queue : List (Option PeerMapUpdate)
  pub closed : Bool

pub record WatcherInfo : Type 0 where
  pub ch : ℕ
  pub team_id : String

pub record PeerMap : Type 0 where
  pub version : ℕ
  pub watchers : Dict WatcherInfo
  pub last_hash : Dict String
  pub chans : List Chan
  pub panicked : Bool

abbrev pub new_peer_map : PeerMap
new_peer_map = record { version = 0; watchers = []; last_hash = []; chans = []; panicked = false }

abbrev pub new_chan : Chan
new_chan = record { queue = []; closed = false }

-- The channel is the next free number.
unfoldable pub add_watcher : String → String → PeerMap → PeerMap
add_watcher node team pm = record pm {
  watchers = insert node (record { ch = length pm.chans; team_id = team }) pm.watchers;
  chans = pm.chans ++ new_chan ∷ [];
}

abbrev pub close_found : ℕ → Option Chan → PeerMap → PeerMap
close_found ch none pm = pm
close_found ch (some c) pm =
    if c.closed
    then record pm { panicked = true }
    else record pm { chans = set pm.chans ch (record c { closed = true }) }

abbrev pub close_chan : ℕ → PeerMap → PeerMap
close_chan ch pm = close_found ch (get_elem? pm.chans ch) pm

abbrev pub drop_watcher : String → Option WatcherInfo → PeerMap → PeerMap
drop_watcher node none pm = pm
drop_watcher node (some w) pm = record (close_chan w.ch pm) { watchers = delete node pm.watchers }

unfoldable pub remove_watcher : String → PeerMap → PeerMap
remove_watcher node pm = drop_watcher node (lookup node pm.watchers) pm

-- The teams that are watched, each once.
unfoldable pub team_ids : Dict WatcherInfo → List String
team_ids [] = []
team_ids ((node, w) ∷ ws) =
    let rest = team_ids ws in if contains rest w.team_id then rest else w.team_id ∷ rest

-- One update for each team, with its hash; `fails` says which builds the database fails.
unfoldable pub build_all :
    (String → Bool) → Tables → List String → PeerMap → Option (Dict PeerMapUpdate) × PeerMap
build_all fails st [] pm = (some [], pm)
build_all fails st (t ∷ ts) pm = elim (fails t) [
  | true ↦ (none, pm)
  | false ↦
      let v = inc_u64 pm.version in
      let (rest, pm') = build_all fails st ts (record pm { version = v }) in
      (elim rest [ none ↦ none | some us ↦ some ((t, build_for_team t st v) ∷ us) ], pm')
]

abbrev pub or_empty : Option String → String
or_empty none = ""
or_empty (some s) = s

-- The teams whose hash has changed, and the hashes kept.
unfoldable pub note_changes :
    (String → String) → Dict PeerMapUpdate → Dict String → List String × Dict String
note_changes sha256 [] last = ([], last)
note_changes sha256 ((t, u) ∷ us) last =
    let (changed, last') = note_changes sha256 us last in
    if peer_hash sha256 u == or_empty (lookup t last)
    then (changed, last')
    else (t ∷ changed, insert t (peer_hash sha256 u) last')

abbrev pub watcher_capacity : ℕ
watcher_capacity = 8

abbrev pub send_found : Option PeerMapUpdate → ℕ → Option Chan → PeerMap → PeerMap
send_found u ch none pm = pm
send_found u ch (some c) pm =
    if c.closed
    then record pm { panicked = true }
    else if ltb (length c.queue) watcher_capacity
    then record pm { chans = set pm.chans ch (record c { queue = c.queue ++ u ∷ [] }) }
    else pm

-- A full channel loses the update.
unfoldable pub send : Option PeerMapUpdate → ℕ → PeerMap → PeerMap
send u ch pm = send_found u ch (get_elem? pm.chans ch) pm

unfoldable pub send_changed :
    Dict PeerMapUpdate → List String → Dict WatcherInfo → PeerMap → PeerMap
send_changed us changed [] pm = pm
send_changed us changed ((node, w) ∷ ws) pm =
    send_changed us changed ws
      (if contains changed w.team_id then send (lookup w.team_id us) w.ch pm else pm)

unfoldable pub send_forced : Dict PeerMapUpdate → Dict WatcherInfo → PeerMap → PeerMap
send_forced us [] pm = pm
send_forced us ((node, w) ∷ ws) pm = send_forced us ws (send (lookup w.team_id us) w.ch pm)

abbrev pub finish_broadcast :
    (String → String) → Option (Dict PeerMapUpdate) → PeerMap → Bool × PeerMap
finish_broadcast sha256 none pm = (false, pm)
finish_broadcast sha256 (some us) pm =
    let (changed, last) = note_changes sha256 us pm.last_hash in
    (true, send_changed us changed pm.watchers (record pm { last_hash = last }))

-- The result says whether it has gone through.
unfoldable pub broadcast : (String → String) → (String → Bool) → Tables → PeerMap → Bool × PeerMap
broadcast sha256 fails st pm =
    let (us, pm') = build_all fails st (team_ids pm.watchers) pm in finish_broadcast sha256 us pm'

-- The builds of ForceBroadcast, whose hashes are kept as they come.
unfoldable pub build_forced :
    (String → String)
    → (String → Bool)
    → Tables
    → List String
    → PeerMap
    → Option (Dict PeerMapUpdate) × PeerMap
build_forced sha256 fails st [] pm = (some [], pm)
build_forced sha256 fails st (t ∷ ts) pm = elim (fails t) [
  | true ↦ (none, pm)
  | false ↦
      let v = inc_u64 pm.version in
      let u = build_for_team t st v in
      let (rest, pm') =
        build_forced sha256 fails st ts
          (record pm { version = v; last_hash = insert t (peer_hash sha256 u) pm.last_hash }) in
      (elim rest [ none ↦ none | some us ↦ some ((t, u) ∷ us) ], pm')
]

abbrev pub finish_forced : Option (Dict PeerMapUpdate) → PeerMap → Bool × PeerMap
finish_forced none pm = (false, pm)
finish_forced (some us) pm = (true, send_forced us pm.watchers pm)

unfoldable pub force_broadcast :
    (String → String) → (String → Bool) → Tables → PeerMap → Bool × PeerMap
force_broadcast sha256 fails st pm =
    let (us, pm') = build_forced sha256 fails st (team_ids pm.watchers) pm in finish_forced us pm'
