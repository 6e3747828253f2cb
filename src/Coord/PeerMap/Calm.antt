-- ===== src/Coord/PeerMap/Calm.antt =====
-- The channels of the watchers (internal/coord/peermap.go) under every operation: open, one for each,
-- and no crash.
use tailbus.Base.{
  ◌≡◌, refl, String, Bool, true, false, some, List, [], ◌∷◌, lookup, length, get_elem?, arith, inl,
  inr, Option-cases, insert-IsMap, delete-IsMap, lookup-insert, lookup-delete, eq_iff,
}
use tailbus.Coord.PeerMap.{Tables}
use tailbus.Coord.PeerMap.Watch.{
  WatcherInfo, PeerMap, new_peer_map, new_chan, add_watcher, remove_watcher, broadcast,
  force_broadcast,
}
use tailbus.Coord.PeerMap.Keeps.{
  IsCalm, is_open, get_elem?-set, get_elem?-snoc, open_below, broadcast-IsCalm,
  force_broadcast-IsCalm,
}

add_watcher-IsCalm :
    (node team : String) (pm : PeerMap) → IsCalm pm → IsCalm (add_watcher node team pm)
unfolding add_watcher
add_watcher-IsCalm node team pm c = record {
  calm = c.calm;
  once = insert-IsMap node _ pm.watchers c.once;
  opened = λ a w e. ground (
    arith,
    e,
    c.opened a w,
    lookup-insert node a (record { ch = length pm.chans; team_id = team }) pm.watchers,
    get_elem?-snoc pm.chans new_chan w.ch,
  );
  apart = λ a b v w e f same. ground (
    arith,
    e,
    f,
    same,
    c.apart a b v w,
    c.opened a v,
    c.opened b w,
    eq_iff a b,
    eq_iff node a,
    eq_iff node b,
    lookup-insert node a (record { ch = length pm.chans; team_id = team }) pm.watchers,
    lookup-insert node b (record { ch = length pm.chans; team_id = team }) pm.watchers,
    open_below pm.chans v.ch,
    open_below pm.chans w.ch,
  );
}

remove_watcher-IsCalm : (node : String) (pm : PeerMap) → IsCalm pm → IsCalm (remove_watcher node pm)
unfolding remove_watcher
remove_watcher-IsCalm node pm c = elim (Option-cases (lookup node pm.watchers)) [
  | inl gone ↦ rw gone c
  | inr (w, e) ↦ elim (Option-cases (get_elem? pm.chans w.ch)) [
    | inl none_there ↦ ground (arith, c.opened node w, e, none_there)
    | inr (ch, f) ↦
        let live : ch.closed ≡ false = ground (arith, c.opened node w, e, f) in
        rw (e, f, live)
          (record {
            calm = c.calm;
            once = delete-IsMap node pm.watchers c.once;
            opened = λ a v g. ground (
              arith,
              g,
              c.opened a v,
              c.apart a node v w,
              e,
              lookup-delete node a pm.watchers,
              eq_iff node a,
              get_elem?-set pm.chans w.ch v.ch (record ch { closed = true }),
            );
            apart = λ a b v u g h same. ground (
              arith,
              g,
              h,
              same,
              c.apart a b v u,
              lookup-delete node a pm.watchers,
              lookup-delete node b pm.watchers,
            );
          })
  ]
]

pub data Op : Type 0 where
  watch : String → String → Op
  unwatch : String → Op
  announce force : (String → Bool) → Tables → Op

unfoldable pub step : (String → String) → Op → PeerMap → PeerMap
step sha256 (watch node team) pm = add_watcher node team pm
step sha256 (unwatch node) pm = remove_watcher node pm
step sha256 (announce fails st) pm = (broadcast sha256 fails st pm).1
step sha256 (force fails st) pm = (force_broadcast sha256 fails st pm).1

unfoldable pub run : (String → String) → List Op → PeerMap → PeerMap
run sha256 [] pm = pm
run sha256 (op ∷ ops) pm = run sha256 ops (step sha256 op pm)

pub run-IsCalm :
    (sha256 : String → String) (ops : List Op) (pm : PeerMap)
    → IsCalm pm
    → IsCalm (run sha256 ops pm)
unfolding run step
run-IsCalm sha256 [] pm c = c
run-IsCalm sha256 (watch node team ∷ ops) pm c =
    run-IsCalm sha256 ops _ (add_watcher-IsCalm node team pm c)
run-IsCalm sha256 (unwatch node ∷ ops) pm c =
    run-IsCalm sha256 ops _ (remove_watcher-IsCalm node pm c)
run-IsCalm sha256 (announce fails st ∷ ops) pm c =
    run-IsCalm sha256 ops _ (broadcast-IsCalm sha256 fails st pm c)
run-IsCalm sha256 (force fails st ∷ ops) pm c =
    run-IsCalm sha256 ops _ (force_broadcast-IsCalm sha256 fails st pm c)

pub new-IsCalm : IsCalm new_peer_map
unfolding lookup
new-IsCalm = record {
  calm = refl;
  once = tt;
  opened = λ node w e. cc;
  apart = λ a b v w e f same. cc;
}

-- However watchers come and go between broadcasts, from the start of the server none is sent to a
-- closed channel, no channel is closed twice, and the channel of each watcher is open
-- and no other watcher has it.
pub watching_calm :
    (sha256 : String → String) (ops : List Op)
    → ((run sha256 ops new_peer_map).panicked ≡ false)
      × ((node : String) (w : WatcherInfo)
          → lookup node (run sha256 ops new_peer_map).watchers ≡ some w
          → is_open w.ch (run sha256 ops new_peer_map) ≡ true)
      × ((a b : String) (v w : WatcherInfo)
          → lookup a (run sha256 ops new_peer_map).watchers ≡ some v
          → lookup b (run sha256 ops new_peer_map).watchers ≡ some w
          → v.ch ≡ w.ch
          → a ≡ b)
watching_calm sha256 ops =
    let c = run-IsCalm sha256 ops new_peer_map new-IsCalm in (c.calm, c.opened, c.apart)
