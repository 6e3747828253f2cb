-- ===== src/Transport/Relayed.antt =====
-- From a handle to the stream of its node, over a relay (internal/handle/resolver.go,
-- internal/transport/grpc.go, internal/relay/server.go).
use tailbus.Base.{
  Any, ℕ, ◌+◌, ◌-◌, ◌≡◌, ◌≢◌, ◌≤◌, refl, ◌∙◌, ap, subst, String, Bool, false, ◌==◌, Option-cases,
  some, List, [], ◌∷◌, ◌++◌, ok, err, ltb, Dict, lookup, arith, inl, inr, Bool-cases, All, eq_iff,
  eq_of_ok, eq_of_some,
}
use tailbus.Resolver.{PeerInfo, RelayInfo, Resolver, resolve}
use tailbus.Relay.{Message, Peer, Server, extract_pub_key}
use tailbus.Relay.Forwarding.{Op, connects, receives, step, run, Sparing, connected_reached}
use tailbus.Transport.{Net, Transport, direct_fail_ttl, pubkey_for_addr, send}
use tailbus.Transport.Told.{Outcome}
use tailbus.Transport.Carried.{Carried, via_relays-Carried}

-- Whoever has the address of the peer has its key.
abbrev pub OneKey : PeerInfo → Dict PeerInfo → Type 0
OneKey info =
    All (λ e. (e.1.advertise_addr ≡ info.advertise_addr) → e.1.public_key ≡ info.public_key)

pubkey_for_addr-lookup :
    (h : String) (info : PeerInfo) (d : Dict PeerInfo)
    → OneKey info d
    → lookup h d ≡ some info
    → pubkey_for_addr info.advertise_addr d ≡ info.public_key
unfolding pubkey_for_addr lookup
pubkey_for_addr-lookup h info [] one e = cc
pubkey_for_addr-lookup h info ((k, v) ∷ d) one e =
    elim (Bool-cases (v.advertise_addr == info.advertise_addr)) [
      | inl here ↦ rw here (one.0 ((eq_iff v.advertise_addr info.advertise_addr).0 here))
      | inr away ↦ elim (Bool-cases (k == h)) [
        | inl named ↦
            let own : v.advertise_addr ≡ info.advertise_addr =
              ap (λ (x : PeerInfo). x.advertise_addr) (eq_of_some (rw named at e)) in
            absurd (ground (arith, away, own, eq_iff v.advertise_addr info.advertise_addr))
        | inr other ↦ rw away (pubkey_for_addr-lookup h info d one.1 (ground (arith, other, e)))
      ]
    ]

lookup-resolve :
    (h : String) (r : Resolver) (info : PeerInfo)
    → resolve h r ≡ ok info
    → lookup h r.handle_to ≡ some info
unfolding resolve
lookup-resolve h r info e = elim (Option-cases (lookup h r.handle_to)) [
  | inl gone ↦ ground (arith, gone, e)
  | inr (found, f) ↦ f ∙ ap some (eq_of_ok (rw f at e))
]

ok-Carried :
    (rs : List RelayInfo) (m : Message) (t : Transport) (o : Outcome)
    → Carried rs m t o
    → o.0 ≡ ok tt
    → (conn : ℕ) × (o.1.sent ≡ t.sent ++ (conn, m) ∷ [])
      × Any (λ (r : RelayInfo). lookup r.addr o.1.relay_conns ≡ some conn) rs
ok-Carried rs m t (ok x, t') c e = c
ok-Carried rs m t (err x, t') c e = cc

held-Carried :
    (net : Net) (r : Resolver) (addr : String) (msg : Message) (failed now : ℕ) (t : Transport)
    → lookup addr t.direct_fails ≡ some failed
    → now ≤ failed + direct_fail_ttl
    → Carried r.relays
        (record msg { relay_target_key = pubkey_for_addr addr r.handle_to })
        t
        (send net (some r) addr msg now t)
unfolding send
held-Carried net r addr msg failed now t held soon =
    let fresh_yet : ltb direct_fail_ttl (now - failed) ≡ false = ground (arith, soon) in
    rw (held, fresh_yet) (via_relays-Carried net r.relays msg (pubkey_for_addr addr r.handle_to) t)

-- A handle resolves to a peer, and no other address book entry with its address has another key. While a
-- direct failure to the address stands, a call of Send that succeeds hands over one message, with the
-- payload, on the connection that is kept for the address of one of the relays. If the peer's stream is the last one with the peer's key there, and works, and the relay has
-- not panicked, the relay sends this message to it, once, and to no other stream.
pub relayed_reached :
    (net : Net) (h : String) (r : Resolver) (info : PeerInfo) (msg : Message) (failed now : ℕ)
    (t : Transport) (id : ℕ) (p : Peer) (ops : List Op) (s : Server) (broken : ℕ → Bool)
    (from : String)
    → resolve h r ≡ ok info
    → OneKey info r.handle_to
    → info.public_key ≢ ""
    → lookup info.advertise_addr t.direct_fails ≡ some failed
    → now ≤ failed + direct_fail_ttl
    → (send net (some r) info.advertise_addr msg now t).0 ≡ ok tt
    → extract_pub_key p ≡ ok info.public_key
    → Sparing info.public_key id ops
    → broken id ≡ false
    → (run (connects id p ∷ ops) s).panicked ≡ false
    → let t' = (send net (some r) info.advertise_addr msg now t).1 in
      let s' = run (connects id p ∷ ops) s in
      (conn : ℕ) × (m : Message) × (t'.sent ≡ t.sent ++ (conn, m) ∷ [])
      × Any (λ (x : RelayInfo). lookup x.addr t'.relay_conns ≡ some conn) r.relays
      × (m.payload ≡ msg.payload)
      × ((step (receives broken from m) s').sent ≡ s'.sent ++ (id, m) ∷ [])
relayed_reached net h r info msg failed now t id p ops s broken from found one given held soon done
      named sparing works lives =
    let key_of = pubkey_for_addr-lookup h info r.handle_to one (lookup-resolve h r info found) in
    let m = record msg { relay_target_key = info.public_key } in
    let carried =
      subst
        (λ k.
          Carried r.relays (record msg { relay_target_key = k }) t
            (send net (some r) info.advertise_addr msg now t))
        key_of (held-Carried net r info.advertise_addr msg failed now t held soon) in
    let (conn, told, on_relay) =
      ok-Carried r.relays m t (send net (some r) info.advertise_addr msg now t) carried done in
    (
      conn,
      m,
      told,
      on_relay,
      refl,
      connected_reached info.public_key id p ops s broken from msg.payload named sparing given works
          lives,
    )
