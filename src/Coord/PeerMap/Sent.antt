-- ===== src/Coord/PeerMap/Sent.antt =====
-- What a broadcast sends, and to whom (internal/coord/peermap.go).
use tailbus.Base.{
  eq_refl, ℕ, ◌+◌, ◌≡◌, refl, sym, ◌∙◌, ap, String, Bool, true, false, ◌==◌, not, none, some, [],
  ◌∷◌, ◌++◌, eqb_refl, Dict, lookup, insert, contains, length, get_elem?, arith, inl, inr,
  Option-cases, length-append, lookup-delete_self, lookup-insert_self,
}
use tailbus.Coord.Directory.{RoomTables}
use tailbus.Coord.PeerMap.{PeerMapUpdate, Tables, build_for_team, peer_hash}
use tailbus.Coord.PeerMap.Watch.{
  Chan, WatcherInfo, PeerMap, new_chan, add_watcher, remove_watcher, team_ids, build_all,
  note_changes, send_changed, broadcast, or_empty,
}
use tailbus.Coord.PeerMap.Keeps.{broadcast-IsCalm, IsCalm, get_elem?-set, get_elem?-snoc, is_open}
use tailbus.Coord.PeerMap.Built.{
  contains-team_ids, team_ids-Distinct, build_all-Built, note_changes-changed, team_hash,
}
use tailbus.Coord.PeerMap.Queues.{after_send, send_changed_self, send_changed_kept}

-- The hash of an update does not depend on its version.
build-team_hash :
    (sha256 : String → String) (team : String) (st : Tables) (v : ℕ)
    → peer_hash sha256 (build_for_team team st v) ≡ team_hash sha256 team st.nodes
unfolding peer_hash build_for_team
build-team_hash sha256 team st v = refl

module _ (sha256 : String → String) (fails : String → Bool) (up : (t : String) → fails t ≡ false)
    (st : Tables) (pm : PeerMap) (calm : IsCalm pm) (node : String) (w : WatcherInfo)
    (watched : lookup node pm.watchers ≡ some w) where
  -- The parts of a broadcast that goes through, for the team of one watcher.
  record Parts : Type 0 where
    us : Dict PeerMapUpdate
    pm₁ : PeerMap
    v : ℕ
    through :
        broadcast sha256 fails st pm
        ≡ (true, send_changed us (note_changes sha256 us pm.last_hash).0 pm.watchers pm₁)
    chans_as_before : pm₁.chans ≡ pm.chans
    watchers_as_before : pm₁.watchers ≡ pm.watchers
    update : lookup w.team_id us ≡ some (build_for_team w.team_id st v)
    moved :
        contains (note_changes sha256 us pm.last_hash).0 w.team_id
        ≡ not (team_hash sha256 w.team_id st.nodes == or_empty (lookup w.team_id pm.last_hash))
    noted : or_empty (lookup w.team_id pm₁.last_hash) ≡ team_hash sha256 w.team_id st.nodes

  parts : Parts
  unfolding broadcast
  parts =
      let (us, e, b) =
        build_all-Built sha256 fails up st (team_ids pm.watchers) pm
          (team_ids-Distinct pm.watchers) in
      let (v, f) = b.built w.team_id (contains-team_ids node w pm.watchers watched) in
      let n =
        note_changes-changed sha256 us pm.last_hash w.team_id (build_for_team w.team_id st v) b.once
          f in
      let hash = build-team_hash sha256 w.team_id st v in
      record {
        us = us;
        pm₁ = record pm {
          version = (build_all fails st (team_ids pm.watchers) pm).1.version;
          last_hash = (note_changes sha256 us pm.last_hash).1;
        };
        v = v;
        through = ground (arith, e, b.as_before);
        chans_as_before = refl;
        watchers_as_before = refl;
        update = f;
        moved = n.0 ∙ ap (λ h. not (h == or_empty (lookup w.team_id pm.last_hash))) hash;
        noted = n.1 ∙ hash;
      }

-- A broadcast whose builds go through appends to the channel of a watcher the update of its team, if
-- what is hashed of the team has changed since the last one, and if the channel has room for it; else
-- it leaves the channel as it is.
pub broadcast_delivers :
    (sha256 : String → String) (fails : String → Bool) (st : Tables) (pm : PeerMap) (node : String)
    (w : WatcherInfo) (c : Chan)
    → ((t : String) → fails t ≡ false)
    → IsCalm pm
    → lookup node pm.watchers ≡ some w
    → get_elem? pm.chans w.ch ≡ some c
    → (v : ℕ) × (get_elem? (broadcast sha256 fails st pm).1.chans w.ch
        ≡ some (
            after_send
              (not
                (team_hash sha256 w.team_id st.nodes == or_empty (lookup w.team_id pm.last_hash)))
              (some (build_for_team w.team_id st v))
              c))
broadcast_delivers sha256 fails st pm node w c up calm watched here =
    let p = parts sha256 fails up st pm calm node w watched in
    let live : c.closed ≡ false = ground (arith, calm.opened node w watched, here) in
    let sent =
      send_changed_self p.us (note_changes sha256 p.us pm.last_hash).0 pm.watchers node w c p.pm₁
        calm.once calm.apart watched (ap (λ l. get_elem? l w.ch) p.chans_as_before ∙ here) live in
    (p.v, rw p.through (sent ∙ rw (p.update, p.moved) refl))

broadcast_kept :
    (sha256 : String → String) (fails : String → Bool) (st : Tables) (pm : PeerMap) (node : String)
    (w : WatcherInfo)
    → ((t : String) → fails t ≡ false)
    → IsCalm pm
    → lookup node pm.watchers ≡ some w
    → let pm' = (broadcast sha256 fails st pm).1 in
      (pm'.watchers ≡ pm.watchers)
      × (or_empty (lookup w.team_id pm'.last_hash) ≡ team_hash sha256 w.team_id st.nodes)
broadcast_kept sha256 fails st pm node w up calm watched =
    let p = parts sha256 fails up st pm calm node w watched in
    let kept = send_changed_kept p.us (note_changes sha256 p.us pm.last_hash).0 pm.watchers p.pm₁ in
    (
      ap (λ r. r.1.watchers) p.through ∙ kept.0 ∙ p.watchers_as_before,
      ap (λ r. or_empty (lookup w.team_id r.1.last_hash)) p.through
          ∙ ap (λ l. or_empty (lookup w.team_id l)) kept.1
          ∙ p.noted,
    )

-- What is hashed leaves the rooms out: after a broadcast that went through, another one sends a watcher
-- nothing as long as the tables of the nodes stay, whatever has been written of the rooms.
pub broadcast_settles :
    (sha256 : String → String) (fails : String → Bool) (st : Tables) (rooms : RoomTables)
    (pm : PeerMap) (node : String) (w : WatcherInfo)
    → ((t : String) → fails t ≡ false)
    → IsCalm pm
    → lookup node pm.watchers ≡ some w
    → let pm' = (broadcast sha256 fails st pm).1 in
      get_elem? (broadcast sha256 fails (record st { rooms = rooms }) pm').1.chans w.ch
      ≡ get_elem? pm'.chans w.ch
broadcast_settles sha256 fails st rooms pm node w up calm watched =
    let pm' = (broadcast sha256 fails st pm).1 in
    let st' = record st { rooms = rooms } in
    let (same, noted) = broadcast_kept sha256 fails st pm node w up calm watched in
    let calm' = broadcast-IsCalm sha256 fails st pm calm in
    let watched' : lookup node pm'.watchers ≡ some w = ap (lookup node) same ∙ watched in
    elim (Option-cases (get_elem? pm'.chans w.ch)) [
      | inl gone ↦ ground (arith, calm'.opened node w watched', gone)
      | inr (c, e) ↦
          let (v, sent) = broadcast_delivers sha256 fails st' pm' node w c up calm' watched' e in
          sent
          ∙ ap
              (λ h. some (
                after_send (not (team_hash sha256 w.team_id st.nodes == h))
                  (some (build_for_team w.team_id st' v)) c))
              noted
          ∙ ap (λ b. some (after_send (not b) (some (build_for_team w.team_id st' v)) c))
              (eq_refl (team_hash sha256 w.team_id st.nodes))
          ∙ sym e
    ]

-- A node that watches again before the end of its first watch has been noticed loses the new one: the
-- removal that belongs to the first takes the second out and closes its channel.
pub rewatch_lost :
    (node first second : String) (pm : PeerMap)
    → let pm' = remove_watcher node (add_watcher node second (add_watcher node first pm)) in
      (lookup node pm'.watchers ≡ none)
      × (is_open (length pm.chans) pm' ≡ true)
      × (is_open (length pm.chans + 1) pm' ≡ false)
unfolding remove_watcher add_watcher
rewatch_lost node first second pm =
    let one = pm.chans ++ new_chan ∷ [] in
    let two = one ++ new_chan ∷ [] in
    let w₁ : WatcherInfo = record { ch = length pm.chans; team_id = first } in
    let w₂ : WatcherInfo = record { ch = length one; team_id = second } in
    let n : length one ≡ length pm.chans + 1 =
      omega (arith, length-append pm.chans (new_chan ∷ [])) in
    let new : get_elem? two (length one) ≡ some new_chan =
      ground (arith, get_elem?-snoc one new_chan (length one), eqb_refl (length one)) in
    let old : get_elem? two (length pm.chans) ≡ some new_chan = ground (
      arith,
      get_elem?-snoc one new_chan (length pm.chans),
      get_elem?-snoc pm.chans new_chan (length pm.chans),
      n,
    ) in
    let shut : Chan = record new_chan { closed = true } in
    rw (lookup-insert_self node w₂ (insert node w₁ pm.watchers)) (
      rw new (
        lookup-delete_self node _,
        ground (arith, get_elem?-set two (length one) (length pm.chans) shut, old, n),
        ground (arith, get_elem?-set two (length one) (length pm.chans + 1) shut, new, n),
      ))
