-- ===== src/Coord/PeerMap/Queues.antt =====
-- What the sends of a broadcast leave in the channel of one watcher (internal/coord/peermap.go).
use tailbus.Base.{
  ℕ, ◌≡◌, ◌≢◌, refl, sym, ◌∙◌, subst, String, Bool, true, false, ◌==◌, ◌&&◌, Option, none, some,
  List, [], ◌∷◌, ◌++◌, ltb, eqb_ne, if◌then◌else◌, Dict, lookup, contains, length, get_elem?, arith,
  inl, inr, Bool-cases, Option-cases, IsMap, eq_iff, All,
}
use tailbus.Coord.PeerMap.{PeerMapUpdate}
use tailbus.Coord.PeerMap.Watch.{Chan, WatcherInfo, PeerMap, send, send_changed, watcher_capacity}
use tailbus.Coord.PeerMap.Keeps.{get_elem?-set, All-lookup}

-- What a send leaves in a channel.
abbrev pub after_send : Bool → Option PeerMapUpdate → Chan → Chan
after_send sent u c =
    if sent && ltb (length c.queue) watcher_capacity
    then record c { queue = c.queue ++ u ∷ [] }
    else c

send_self :
    (u : Option PeerMapUpdate) (ch : ℕ) (c : Chan) (pm : PeerMap)
    → get_elem? pm.chans ch ≡ some c
    → c.closed ≡ false
    → get_elem? (send u ch pm).chans ch ≡ some (after_send true u c)
unfolding send
send_self u ch c pm e live =
    ground (arith, e, live, get_elem?-set pm.chans ch ch (record c { queue = c.queue ++ u ∷ [] }))

send_other :
    (u : Option PeerMapUpdate) (ch i : ℕ) (pm : PeerMap)
    → ch ≢ i
    → get_elem? (send u ch pm).chans i ≡ get_elem? pm.chans i
unfolding send
send_other u ch i pm ne = elim (Option-cases (get_elem? pm.chans ch)) [
  | inl e ↦ rw e refl
  | inr (c, e) ↦ rw e (elim (Bool-cases c.closed) [
    | inl shut ↦ rw shut refl
    | inr live ↦ rw live (elim (Bool-cases (ltb (length c.queue) watcher_capacity)) [
      | inl room ↦ rw room (
          ground (
            arith,
            get_elem?-set pm.chans ch i (record c { queue = c.queue ++ u ∷ [] }),
            eqb_ne ch i ne,
          ))
      | inr full ↦ rw full refl
    ])
  ])
]

abbrev send_if : Bool → Option PeerMapUpdate → ℕ → PeerMap → PeerMap
send_if b u ch pm = if b then send u ch pm else pm

send_if_other :
    (b : Bool) (u : Option PeerMapUpdate) (ch i : ℕ) (pm : PeerMap)
    → ch ≢ i
    → get_elem? (send_if b u ch pm).chans i ≡ get_elem? pm.chans i
send_if_other true u ch i pm ne = send_other u ch i pm ne
send_if_other false u ch i pm ne = refl

send_if_self :
    (b : Bool) (u : Option PeerMapUpdate) (ch : ℕ) (c : Chan) (pm : PeerMap)
    → get_elem? pm.chans ch ≡ some c
    → c.closed ≡ false
    → get_elem? (send_if b u ch pm).chans ch ≡ some (after_send b u c)
send_if_self true u ch c pm e live = send_self u ch c pm e live
send_if_self false u ch c pm e live = e

-- Each watcher has a channel of its own.
abbrev pub Apart : Dict WatcherInfo → Type 0
Apart ws =
    (a b : String) (v w : WatcherInfo)
    → lookup a ws ≡ some v
    → lookup b ws ≡ some w
    → v.ch ≡ w.ch
    → a ≡ b

lookup_tail :
    (k a : String) (v w : WatcherInfo) (ws : Dict WatcherInfo)
    → lookup k ws ≡ none
    → lookup a ws ≡ some w
    → lookup a ((k, v) ∷ ws) ≡ some w
unfolding lookup
lookup_tail k a v w ws m e = ground (arith, m, e, eq_iff k a)

lookup_head :
    (k : String) (v : WatcherInfo) (ws : Dict WatcherInfo) → lookup k ((k, v) ∷ ws) ≡ some v
unfolding lookup
lookup_head k v ws = ground (arith, eq_iff k k)

Apart-others :
    (k : String) (v : WatcherInfo) (ws : Dict WatcherInfo)
    → IsMap ws
    → lookup k ws ≡ none
    → Apart ((k, v) ∷ ws)
    → All (λ e. e.1.ch ≢ v.ch) ws
Apart-others k v ws m absent apart =
    All-lookup (λ w. w.ch ≢ v.ch) ws m
      λ a w e same.
        let one : a ≡ k =
          apart a k w v (lookup_tail k a v w ws absent e) (lookup_head k v ws) same in
        ground (arith, one, e, absent)

module _ (us : Dict PeerMapUpdate) (changed : List String) where
  send_changed_others :
      (ws : Dict WatcherInfo) (i : ℕ) (pm : PeerMap)
      → All (λ e. e.1.ch ≢ i) ws
      → get_elem? (send_changed us changed ws pm).chans i ≡ get_elem? pm.chans i
  unfolding send_changed
  send_changed_others [] i pm h = refl
  send_changed_others ((k, v) ∷ ws) i pm h =
      send_changed_others ws i (send_if (contains changed v.team_id) (lookup v.team_id us) v.ch pm)
        h.1
      ∙ send_if_other (contains changed v.team_id) (lookup v.team_id us) v.ch i pm h.0

  pub send_changed_self :
      (ws : Dict WatcherInfo) (node : String) (w : WatcherInfo) (c : Chan) (pm : PeerMap)
      → IsMap ws
      → Apart ws
      → lookup node ws ≡ some w
      → get_elem? pm.chans w.ch ≡ some c
      → c.closed ≡ false
      → get_elem? (send_changed us changed ws pm).chans w.ch
        ≡ some (after_send (contains changed w.team_id) (lookup w.team_id us) c)
  unfolding send_changed lookup
  send_changed_self [] node w c pm m apart e f live = cc
  send_changed_self ((k, v) ∷ ws) node w c pm m apart e f live =
      let pm₁ = send_if (contains changed v.team_id) (lookup v.team_id us) v.ch pm in
      elim (Bool-cases (k == node)) [
        | inl here ↦
            let own : v ≡ w = ground (arith, here, e) in
            let others : All (λ e. e.1.ch ≢ w.ch) ws =
              subst (λ (x : WatcherInfo). All (λ e. e.1.ch ≢ x.ch) ws) own
                (Apart-others k v ws m.1 m.0 apart) in
            send_changed_others ws w.ch pm₁ others
            ∙ subst
                (λ (x : WatcherInfo).
                  get_elem?
                    (send_if (contains changed x.team_id) (lookup x.team_id us) x.ch pm).chans w.ch
                  ≡ some (after_send (contains changed w.team_id) (lookup w.team_id us) c))
                (sym own)
                (send_if_self (contains changed w.team_id) (lookup w.team_id us) w.ch c pm f live)
        | inr other ↦
            let tail : lookup node ws ≡ some w = ground (arith, other, e) in
            let ne : v.ch ≢ w.ch = λ same.
              (let one : k ≡ node =
                  apart k node v w (lookup_head k v ws) (lookup_tail k node v w ws m.0 tail) same in
                ground (arith, one, other, eq_iff k node)) in
            send_changed_self ws node w c pm₁ m.1
              (λ a b x y p q.
                apart a b x y (lookup_tail k a v x ws m.0 p) (lookup_tail k b v y ws m.0 q))
              tail
              (send_if_other (contains changed v.team_id) (lookup v.team_id us) v.ch w.ch pm ne ∙ f)
              live
      ]

send_kept :
    (u : Option PeerMapUpdate) (ch : ℕ) (pm : PeerMap)
    → ((send u ch pm).watchers ≡ pm.watchers) × ((send u ch pm).last_hash ≡ pm.last_hash)
unfolding send
send_kept u ch pm = (ground arith, ground arith)

pub send_changed_kept :
    (us : Dict PeerMapUpdate) (changed : List String) (ws : Dict WatcherInfo) (pm : PeerMap)
    → ((send_changed us changed ws pm).watchers ≡ pm.watchers)
      × ((send_changed us changed ws pm).last_hash ≡ pm.last_hash)
unfolding send_changed
send_changed_kept us changed [] pm = (refl, refl)
send_changed_kept us changed ((k, v) ∷ ws) pm =
    let pm₁ = send_if (contains changed v.team_id) (lookup v.team_id us) v.ch pm in
    let ih = send_changed_kept us changed ws pm₁ in
    let own = send_kept (lookup v.team_id us) v.ch pm in
    (ground (arith, ih.0, own.0), ground (arith, ih.1, own.1))
