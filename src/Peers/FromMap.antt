-- ===== src/Peers/FromMap.antt =====
-- Whom a daemon trusts once it has a peer map (internal/transport/peerverifier.go,
-- internal/daemon/coordclient.go), and the trust on first use (internal/identity/tofu.go).
use tailbus.Base.{
  All, eq_of_ok, eq_of_some, subst, ℕ, ◌≡◌, ◌≢◌, ◌↔◌, refl, ◌∙◌, ap, String, Bool, true, false,
  ◌==◌, some, List, [], ◌∷◌, ok, err, Dict, arith, eq_iff, inl, inr, Bool-cases, lookup, contains,
  insert, Option-cases, str_eq_ne,
}
use tailbus.Resolver
use tailbus.Resolver.{Resolver, resolve, update_peer_map, update_nodes, update_relays, update_rooms}
use tailbus.Coord.PeerMap
use tailbus.Coord.PeerMap.{PeerMapUpdate, Tables, build_for_team}
use tailbus.Coord.Client.{info_of, add_handles, add_peers, relays_from, apply_update}
use tailbus.Coord.Client.Routes.{resolve-register_node}
use tailbus.Coord.Registry.{NodeRecord, NodeStore}
use tailbus.Coord.Registry.Calls.{register_node}
use tailbus.Coord.Registry.Unique.{IsUnique}
use tailbus.Coord.Registry.Sound.{IsSound}
use tailbus.Peers.{unknown_key, missing, any_relay, any_peer, peer_at, verify_peer_key, verify_tofu}

-- What a handle resolves to is a peer whose key is trusted.
any_peer-lookup :
    (h : String) (d : Dict Resolver.PeerInfo) (info : Resolver.PeerInfo)
    → lookup h d ≡ some info
    → any_peer info.public_key d ≡ true
unfolding any_peer lookup
any_peer-lookup h [] info e = cc
any_peer-lookup h ((k, v) ∷ d) info e = elim (Bool-cases (k == h)) [
  | inl here ↦
      let own : v ≡ info = ground (arith, here, e) in
      rw (← own) (ground (arith, eq_iff v.public_key v.public_key))
  | inr there ↦ ground (arith, any_peer-lookup h d info (ground (arith, there, e)))
]

resolve-verify :
    (h : String) (r : Resolver) (info : Resolver.PeerInfo)
    → resolve h r ≡ ok info
    → verify_peer_key "" info.public_key r ≡ ok tt
unfolding resolve verify_peer_key
resolve-verify h r info e = elim (Option-cases (lookup h r.handle_to)) [
  | inl gone ↦ ground (arith, gone, e)
  | inr (found, f) ↦
      let own : found ≡ info = eq_of_ok (rw f at e) in
      ground (arith, any_peer-lookup h r.handle_to info (f ∙ ap some own))
]

-- Whoever has the address has the key.
abbrev pub OneKeyAt : String → String → Dict Resolver.PeerInfo → Type 0
OneKeyAt addr key = All (λ e. (e.1.advertise_addr ≡ addr) → e.1.public_key ≡ key)

-- A peer that a handle resolves to may be dialled at its address.
peer_at-lookup :
    (addr key h : String) (info : Resolver.PeerInfo) (d : Dict Resolver.PeerInfo)
    (rs : List Resolver.RelayInfo)
    → OneKeyAt addr key d
    → lookup h d ≡ some info
    → info.advertise_addr ≡ addr
    → peer_at addr key d rs ≡ ok tt
unfolding peer_at lookup
peer_at-lookup addr key h info [] rs one e at = cc
peer_at-lookup addr key h info ((k, v) ∷ d) rs one e at =
    elim (Bool-cases (v.advertise_addr == addr)) [
      | inl here ↦
          let own = (eq_iff v.public_key key).1 (one.0 ((eq_iff v.advertise_addr addr).0 here)) in
          rw (here, own) refl
      | inr away ↦ elim (Bool-cases (k == h)) [
        | inl named ↦
            let own : v.advertise_addr ≡ info.advertise_addr =
              ap (λ (x : Resolver.PeerInfo). x.advertise_addr) (eq_of_some (rw named at e)) in
            absurd (ground (arith, away, own ∙ at, eq_iff v.advertise_addr addr))
        | inr other ↦
            rw away (peer_at-lookup addr key h info d rs one.1 (ground (arith, other, e)) at)
      ]
    ]

dial-verify :
    (addr key h : String) (r : Resolver) (info : Resolver.PeerInfo)
    → addr ≢ ""
    → OneKeyAt addr key r.handle_to
    → resolve h r ≡ ok info
    → info.advertise_addr ≡ addr
    → verify_peer_key addr key r ≡ ok tt
unfolding resolve verify_peer_key
dial-verify addr key h r info given one e at = elim (Option-cases (lookup h r.handle_to)) [
  | inl gone ↦ ground (arith, gone, e)
  | inr (found, f) ↦
      let own : found ≡ info = eq_of_ok (rw f at e) in
      rw (str_eq_ne addr "" given)
        (peer_at-lookup addr key h info r.handle_to r.relays one (f ∙ ap some own) at)
]

-- A node that has been registered in a team, where each handle has one node in each team, with at least
-- one handle, an address, and as no relay, is trusted with its key by every daemon that then gets the
-- team's map, both when it comes in and when it is dialled at its address, as long as no node of the map
-- has this address with another key.
pub registered_trusted :
    (rec : NodeRecord) (st : Tables) (st' : NodeStore) (h : String) (v : ℕ) (r : Resolver)
    → IsUnique st.nodes
    → IsSound st.nodes
    → rec.team_id ≢ ""
    → rec.is_relay ≡ false
    → register_node rec st.nodes ≡ (ok tt, st')
    → contains rec.handles h ≡ true
    → rec.advertise_addr ≢ ""
    → OneKeyAt rec.advertise_addr rec.public_key
        (apply_update (build_for_team rec.team_id (record st { nodes = st' }) v) r).handle_to
    → let r' = apply_update (build_for_team rec.team_id (record st { nodes = st' }) v) r in
      (verify_peer_key "" rec.public_key r' ≡ ok tt)
      × (verify_peer_key rec.advertise_addr rec.public_key r' ≡ ok tt)
registered_trusted rec st st' h v r unique sound scoped plain done listed given one =
    let (info, e, id, key, addr) =
      resolve-register_node rec st st' h v r unique sound scoped plain done listed in
    let r' = apply_update (build_for_team rec.team_id (record st { nodes = st' }) v) r in
    (
      subst (λ k. verify_peer_key "" k r' ≡ ok tt) key (resolve-verify h r' info e),
      dial-verify rec.advertise_addr rec.public_key h r' info given one e addr,
    )

-- No peer with the key has a handle.
abbrev pub Handleless : String → List PeerMap.PeerInfo → Type 0
Handleless key = All (λ p. (p.public_key ≡ key) → p.handles ≡ [])

any_peer-insert :
    (key h : String) (info : Resolver.PeerInfo) (d : Dict Resolver.PeerInfo)
    → (info.public_key == key) ≡ false
    → any_peer key d ≡ false
    → any_peer key (insert h info d) ≡ false
unfolding any_peer insert
any_peer-insert key h info [] other e = ground (arith, other)
any_peer-insert key h info ((k, v) ∷ d) other e =
    ground (arith, other, e, any_peer-insert key h info d)

add_handles-any_peer :
    (key : String) (p : PeerMap.PeerInfo) (hs : List String) (d : Dict Resolver.PeerInfo)
    → (p.public_key == key) ≡ false
    → any_peer key d ≡ false
    → any_peer key (add_handles p hs d) ≡ false
unfolding add_handles
add_handles-any_peer key p [] d other e = e
add_handles-any_peer key p (h ∷ hs) d other e =
    add_handles-any_peer key p hs (insert h (info_of p h) d) other
      (any_peer-insert key h (info_of p h) d other e)

add_peers-any_peer :
    (key : String) (ps : List PeerMap.PeerInfo) (d : Dict Resolver.PeerInfo)
    → Handleless key ps
    → any_peer key d ≡ false
    → any_peer key (add_peers ps d) ≡ false
unfolding add_peers add_handles
add_peers-any_peer key [] d without e = e
add_peers-any_peer key (p ∷ ps) d without e = elim (Bool-cases (p.public_key == key)) [
  | inl own ↦
      add_peers-any_peer key ps (add_handles p p.handles d) without.1
        (rw (without.0 ((eq_iff p.public_key key).0 own), add_handles) e)
  | inr other ↦
      add_peers-any_peer key ps (add_handles p p.handles d) without.1
        (add_handles-any_peer key p p.handles d other e)
]

relays_from-any_relay :
    (key : String) (rs : List PeerMap.RelayInfo)
    → All (λ (x : PeerMap.RelayInfo). x.public_key ≢ key) rs
    → any_relay key (relays_from rs) ≡ false
unfolding relays_from any_relay
relays_from-any_relay key [] h = refl
relays_from-any_relay key (r ∷ rs) h =
    ground (arith, str_eq_ne r.public_key key h.0, relays_from-any_relay key rs h.1)

-- The peer map of the verifier goes by handles: a node of the map that has no handle is turned away, as
-- long as no other node with its key has one and no relay has its key.
pub unlisted_refused :
    (key : String) (u : PeerMapUpdate) (r : Resolver)
    → Handleless key u.peers
    → All (λ (x : PeerMap.RelayInfo). x.public_key ≢ key) u.relays
    → verify_peer_key "" key (apply_update u r) ≡ err unknown_key
unfolding verify_peer_key apply_update update_peer_map update_nodes update_relays update_rooms
    any_peer
unlisted_refused key u r without no_relay = ground (
  arith,
  add_peers-any_peer key u.peers [] without refl,
  relays_from-any_relay key u.relays no_relay,
)

-- Once the first certificate has been saved, a later one is accepted exactly if it has the same
-- fingerprint, and the file stays. A fingerprint has no space at its ends.
pub first_use_sticks :
    (fingerprint trim : String → String) (first cert : String) (firsts rest : List String)
    (writes : Bool)
    → ((c : String) → trim (fingerprint c) ≡ fingerprint c)
    → let file = (verify_tofu fingerprint trim true (first ∷ firsts) missing).1 in
      let later = verify_tofu fingerprint trim writes (cert ∷ rest) file in
      ((later.0 ≡ ok tt) ↔ (fingerprint cert ≡ fingerprint first)) × (later.1 ≡ file)
unfolding verify_tofu
first_use_sticks fingerprint trim first cert firsts rest writes trimmed = (
  (
    λ e. ground (arith, e, trimmed first, eq_iff (trim (fingerprint first)) (fingerprint cert)),
    λ same.
        ground (arith, same, trimmed first, eq_iff (trim (fingerprint first)) (fingerprint cert)),
  ),
  refl,
)
