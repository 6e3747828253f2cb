-- ===== src/Transport/Fallback.antt =====
-- When Send goes to the relays at once (internal/transport/grpc.go).
use tailbus.Base.{
  ℕ, ◌+◌, ◌-◌, ◌≡◌, ◌≤◌, refl, sym, ◌∙◌, ap, subst, String, false, ◌==◌, Option, Option-cases, none,
  some, List, [], ◌∷◌, ok, err, ltb, lookup, insert, arith, inl, inr, Bool-cases,
  lookup-insert_self,
}
use tailbus.Resolver.{RelayInfo, Resolver}
use tailbus.Relay.{Message}
use tailbus.Transport.{
  Net, Pushed, taken, broken, cut_off, Transport, SendError, direct_fail_ttl, send_direct,
  pubkey_for_addr, keep_relay, get_or_connect_relay, forget_relay, end_relay, push_relay,
  try_relays, some_relays, send_via_relay, or_relay, send_after, send,
}
use tailbus.Transport.Told.{Outcome}
use tailbus.Transport.Carried.{Carried, via_relays-Carried}

-- No peer is dialled, and the recorded failures stay.
abbrev pub Left : Transport → Transport → Type 0
Left t t' = (t'.dialled ≡ t.dialled) × (t'.direct_fails ≡ t.direct_fails)

Left-trans : (t u v : Transport) → Left t u → Left u v → Left t v
Left-trans t u v a b = (b.0 ∙ a.0, b.1 ∙ a.1)

module _ (net : Net) (resolver : Option Resolver) (addr : String) (msg : Message) where
  get_or_connect_relay-Left :
      (at : String) (t : Transport) → Left t (get_or_connect_relay net at t).1
  unfolding get_or_connect_relay
  get_or_connect_relay-Left at t = elim (Option-cases (lookup at t.relay_conns)) [
    | inl e ↦ rw (e, get_or_connect_relay) (dialled (net.dial t.ops at))
    | inr (c, e) ↦ rw (e, get_or_connect_relay) (refl, refl)
  ]
    where
      dialled : (c : Option ℕ) → Left t (keep_relay net at c (record t { ops = t.ops + 1 })).1
      dialled none = (refl, refl)
      dialled (some conn) = (ground arith, ground arith)

  try_relays-Left :
      (rs : List RelayInfo) (m : Message) (t : Transport) → Left t (try_relays net rs m t).1
  unfolding try_relays
  try_relays-Left [] m t = (refl, refl)
  try_relays-Left (r ∷ rs) m t =
      let got = get_or_connect_relay net r.addr t in
      Left-trans t got.1 (push_relay net r.addr m got (λ t'. try_relays net rs m t')).1
        (get_or_connect_relay-Left r.addr t) (pushed (λ u. try_relays-Left rs m u) got)
    where
      pushed :
          ((u : Transport) → Left u (try_relays net rs m u).1)
          → (g : Option ℕ × Transport)
          → Left g.1 (push_relay net r.addr m g (λ t'. try_relays net rs m t')).1
      pushed ih (none, u) = ih u
      pushed ih (some conn, u) = ended (net.push u.ops conn)
        where
          ended :
              (x : Pushed)
              → Left u
                  (end_relay net r.addr conn m
                    (x, record u { ops = u.ops + 1 })
                    (λ t'. try_relays net rs m t')).1
          ended taken = (refl, refl)
          ended broken = ih (record u { ops = u.ops + 1 })
          ended cut_off =
              let u' = forget_relay net r.addr conn (record u { ops = u.ops + 1 }) in
              Left-trans u u' (try_relays net rs m u').1 (ground arith, ground arith) (ih u')

  send_via_relay-Left : (t : Transport) → Left t (send_via_relay net resolver addr msg t).1
  send_via_relay-Left t = by_resolver resolver
    where
      some_left : (rs : List RelayInfo) (m : Message) → Left t (some_relays net rs m t).1
      some_left [] m = (refl, refl)
      some_left (x ∷ rs) m = try_relays-Left (x ∷ rs) m t

      by_resolver : (o : Option Resolver) → Left t (send_via_relay net o addr msg t).1
      by_resolver none = (refl, refl)
      by_resolver (some r) = elim (Bool-cases (pubkey_for_addr addr r.handle_to == "")) [
        | inl keyless ↦ rw keyless (refl, refl)
        | inr keyed ↦ rw keyed (
            some_left r.relays (record msg { relay_target_key = pubkey_for_addr addr r.handle_to }))
      ]

  or_relay-err :
      (now : ℕ) (r : Outcome) (e : SendError)
      → r.0 ≡ err e
      → or_relay net resolver addr msg now r
        ≡ send_via_relay net resolver addr msg
            (record r.1 { direct_fails = insert addr now r.1.direct_fails })
  or_relay-err now (ok x, t) e f = cc
  or_relay-err now (err x, t) e f = refl

  first_failed :
      (now : ℕ) (t : Transport) (e : SendError)
      → lookup addr t.direct_fails ≡ none
      → (send_direct net addr msg t).0 ≡ err e
      → let tried = (send_direct net addr msg t).1 in
        send net resolver addr msg now t
        ≡ send_via_relay net resolver addr msg
            (record tried { direct_fails = insert addr now tried.direct_fails })
  unfolding send
  first_failed now t e fresh failed =
      rw fresh (or_relay-err now (send_direct net addr msg t) e failed)

  -- The call is one of the relays, and a success has been carried by one.
  abbrev pub ByRelay : Transport → Outcome → Type 0
  ByRelay t o =
      (o ≡ send_via_relay net resolver addr msg t)
      × (Left t o.1
          × ((r : Resolver)
              → resolver ≡ some r
              → Carried r.relays
                  (record msg { relay_target_key = pubkey_for_addr addr r.handle_to }) t o))

  send_via_relay-ByRelay : (t : Transport) → ByRelay t (send_via_relay net resolver addr msg t)
  send_via_relay-ByRelay t = (
    refl,
    (
      send_via_relay-Left t,
      λ r e. rw e (via_relays-Carried net r.relays msg (pubkey_for_addr addr r.handle_to) t),
    ),
  )

  held :
      (now later : ℕ) (t : Transport)
      → lookup addr t.direct_fails ≡ some now
      → later ≤ now + direct_fail_ttl
      → ByRelay t (send_after net (lookup addr t.direct_fails) resolver addr msg later t)
  held now later t kept soon =
      let fresh_yet : ltb direct_fail_ttl (later - now) ≡ false = ground (arith, soon) in
      rw (kept, fresh_yet) (send_via_relay-ByRelay t)

  -- If a call finds no earlier failure recorded for the address, and its direct attempt fails, then a
  -- call to the same address within the next minute is an attempt by the relays and nothing else: it
  -- dials no peer, leaves the recorded failures as they are, and where it succeeds, it has handed over
  -- the message with the peer's key, once, on the connection kept for one of the relays.
  pub failure_holds :
      (now later : ℕ) (t : Transport) (e : SendError)
      → lookup addr t.direct_fails ≡ none
      → (send_direct net addr msg t).0 ≡ err e
      → later ≤ now + direct_fail_ttl
      → let t' = (send net resolver addr msg now t).1 in
        ByRelay t' (send net resolver addr msg later t')
  unfolding send
  failure_holds now later t e fresh failed soon =
      let tried = (send_direct net addr msg t).1 in
      let u = record tried { direct_fails = insert addr now tried.direct_fails } in
      subst
        (λ (t' : Transport).
          ByRelay t' (send_after net (lookup addr t'.direct_fails) resolver addr msg later t'))
        (ap (λ (r : Outcome). r.1) (sym (first_failed now t e fresh failed)))
        (held now later (send_via_relay net resolver addr msg u).1
          (ap (lookup addr) (send_via_relay-Left u).1
            ∙ lookup-insert_self addr now tried.direct_fails)
          soon)
