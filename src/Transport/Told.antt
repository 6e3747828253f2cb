-- ===== src/Transport/Told.antt =====
-- What a call of Send tells the callback of sends (internal/transport/grpc.go).
use tailbus.Base.{
  ℕ, ◌+◌, ◌-◌, ◌≡◌, refl, ◌∙◌, ap, String, ◌==◌, Option, Option-cases, none, some, List, [], ◌∷◌,
  ◌++◌, Result, ok, err, ltb, lookup, insert, delete, arith, inl, inr, ◌⊎◌, Bool-cases,
}
use tailbus.Resolver.{RelayInfo, Resolver}
use tailbus.Relay.{Message}
use tailbus.Transport.{
  Net, Pushed, taken, broken, cut_off, Transport, SendError, direct_fail_ttl, connect, keep_peer,
  get_or_connect, forget_peer, end_again, push_again, end_first, push_first, send_direct,
  pubkey_for_addr, keep_relay, get_or_connect_relay, forget_relay, end_relay, push_relay,
  try_relays, via_relays, some_relays, send_via_relay, or_relay, send_after, send,
}

abbrev pub Outcome : Type 0
Outcome = Result SendError (Unit {0}) × Transport

-- A call that succeeds has handed one message to the callback of sends, one with the payload, for the
-- peer itself or with the relay key; one that fails has handed over none.
abbrev pub Told : (Message → Type 0) → Transport → Outcome → Type 0
Told P t (ok _, t') = (conn : ℕ) × (m : Message) × P m × (t'.sent ≡ t.sent ++ (conn, m) ∷ [])
Told P t (err _, t') = t'.sent ≡ t.sent

-- As told from another state with the same list.
Told-from :
    (P : Message → Type 0) (t u : Transport) (r : Outcome)
    → u.sent ≡ t.sent
    → Told P u r
    → Told P t r
Told-from P t u (ok x, t') e (conn, m, p, f) = (conn, m, p, f ∙ ap (λ l. l ++ (conn, m) ∷ []) e)
Told-from P t u (err x, t') e f = f ∙ e

module _ (net : Net) where
  keep_peer-sent :
      (addr : String) (r : Option ℕ × Transport) → (keep_peer net addr r).1.sent ≡ r.1.sent
  keep_peer-sent addr (none, t) = refl
  keep_peer-sent addr (some conn, t) = elim (Option-cases (lookup addr t.peers)) [
    | inl e ↦ rw (e, keep_peer) refl
    | inr (c, e) ↦ rw (e, keep_peer) refl
  ]

  get_or_connect-sent :
      (addr : String) (t : Transport) → (get_or_connect net addr t).1.sent ≡ t.sent
  unfolding get_or_connect
  get_or_connect-sent addr t = elim (Option-cases (lookup addr t.peers)) [
    | inl e ↦ rw (e, get_or_connect) (keep_peer-sent addr (connect net addr t))
    | inr (c, e) ↦ rw (e, get_or_connect) refl
  ]

  forget_peer-sent :
      (addr : String) (conn : ℕ) (t : Transport) → (forget_peer net addr conn t).sent ≡ t.sent
  forget_peer-sent addr conn t = ground arith

  push_again-Told :
      (P : Message → Type 0) (msg : Message) (r : Option ℕ × Transport)
      → P msg
      → Told P r.1 (push_again net msg r)
  push_again-Told P msg (none, t) p = refl
  push_again-Told P msg (some conn, t) p = ended (net.push t.ops conn)
    where
      ended : (x : Pushed) → Told P t (end_again net conn msg (x, record t { ops = t.ops + 1 }))
      ended taken = (conn, msg, p, refl)
      ended broken = refl
      ended cut_off = refl

  send_direct-Told :
      (P : Message → Type 0) (addr : String) (msg : Message) (t : Transport)
      → P msg
      → Told P t (send_direct net addr msg t)
  unfolding send_direct
  send_direct-Told P addr msg t p =
      Told-from P t (get_or_connect net addr t).1 (send_direct net addr msg t)
        (get_or_connect-sent addr t) (first (get_or_connect net addr t))
    where
      first : (r : Option ℕ × Transport) → Told P r.1 (push_first net addr msg r)
      first (none, u) = refl
      first (some conn, u) = ended (net.push u.ops conn)
        where
          ended :
              (x : Pushed)
              → Told P u (end_first net addr conn msg (x, record u { ops = u.ops + 1 }))
          ended taken = (conn, msg, p, refl)
          ended broken =
              let u' = forget_peer net addr conn (record u { ops = u.ops + 1 }) in
              let r = keep_peer net addr (connect net addr u') in
              Told-from P u r.1 (push_again net msg r)
                (keep_peer-sent addr (connect net addr u')
                  ∙ forget_peer-sent addr conn (record u { ops = u.ops + 1 }))
                (push_again-Told P msg r p)
          ended cut_off = forget_peer-sent addr conn (record u { ops = u.ops + 1 })

  get_or_connect_relay-sent :
      (addr : String) (t : Transport) → (get_or_connect_relay net addr t).1.sent ≡ t.sent
  unfolding get_or_connect_relay
  get_or_connect_relay-sent addr t = elim (Option-cases (lookup addr t.relay_conns)) [
    | inl e ↦ rw (e, get_or_connect_relay) (dialled (net.dial t.ops addr))
    | inr (c, e) ↦ rw (e, get_or_connect_relay) refl
  ]
    where
      dialled :
          (c : Option ℕ) → (keep_relay net addr c (record t { ops = t.ops + 1 })).1.sent ≡ t.sent
      dialled none = refl
      dialled (some conn) = ground arith

  forget_relay-sent :
      (addr : String) (conn : ℕ) (t : Transport) → (forget_relay net addr conn t).sent ≡ t.sent
  forget_relay-sent addr conn t = ground arith

  try_relays-Told :
      (P : Message → Type 0) (rs : List RelayInfo) (msg : Message) (t : Transport)
      → P msg
      → Told P t (try_relays net rs msg t)
  unfolding try_relays
  try_relays-Told P [] msg t p = refl
  try_relays-Told P (r ∷ rs) msg t p =
      let got = get_or_connect_relay net r.addr t in
      Told-from P t got.1 (push_relay net r.addr msg got (λ t'. try_relays net rs msg t'))
        (get_or_connect_relay-sent r.addr t) (pushed (λ u. try_relays-Told P rs msg u p) got)
    where
      pushed :
          ((u : Transport) → Told P u (try_relays net rs msg u))
          → (g : Option ℕ × Transport)
          → Told P g.1 (push_relay net r.addr msg g (λ t'. try_relays net rs msg t'))
      pushed ih (none, u) = ih u
      pushed ih (some conn, u) = ended (net.push u.ops conn)
        where
          ended :
              (x : Pushed)
              → Told P u (
                  end_relay net r.addr conn msg
                    (x, record u { ops = u.ops + 1 })
                    (λ t'. try_relays net rs msg t'))
          ended taken = (conn, msg, p, refl)
          ended broken =
              Told-from P u (record u { ops = u.ops + 1 }) _ refl
                (ih (record u { ops = u.ops + 1 }))
          ended cut_off =
              let u' = forget_relay net r.addr conn (record u { ops = u.ops + 1 }) in
              Told-from P u u' _ (forget_relay-sent r.addr conn (record u { ops = u.ops + 1 }))
                (ih u')

  pub via_relays-Told :
      (P : Message → Type 0) (rs : List RelayInfo) (msg : Message) (key : String) (t : Transport)
      → P (record msg { relay_target_key = key })
      → Told P t (via_relays net rs msg key t)
  via_relays-Told P rs msg key t p = elim (Bool-cases (key == "")) [
    | inl keyless ↦ rw keyless refl
    | inr keyed ↦ rw keyed (some_sent rs)
  ]
    where
      some_sent :
          (rs : List RelayInfo)
          → Told P t (some_relays net rs (record msg { relay_target_key = key }) t)
      some_sent [] = refl
      some_sent (x ∷ rs) = try_relays-Told P (x ∷ rs) (record msg { relay_target_key = key }) t p

-- The message as given, or with the key that the peer map has for the address.
abbrev pub Meant : Option Resolver → String → Message → Message → Type 0
Meant resolver addr msg m =
    (m ≡ msg)
    ⊎ ((r : Resolver) × (key : String) × (resolver ≡ some r)
        × (pubkey_for_addr addr r.handle_to ≡ key)
        × (m ≡ record msg { relay_target_key = key }))

module _ (net : Net) (resolver : Option Resolver) (addr : String) (msg : Message) where
  abbrev P : Message → Type 0
  P = Meant resolver addr msg

  send_via_relay-Told : (t : Transport) → Told P t (send_via_relay net resolver addr msg t)
  send_via_relay-Told t = by_resolver resolver refl
    where
      by_resolver :
          (o : Option Resolver) → resolver ≡ o → Told P t (send_via_relay net o addr msg t)
      by_resolver none e = refl
      by_resolver (some r) e =
          let key = pubkey_for_addr addr r.handle_to in
          via_relays-Told net P r.relays msg key t (inr (r, key, e, refl, refl))

  or_relay-Told :
      (now : ℕ) (t : Transport) (r : Outcome)
      → Told P t r
      → Told P t (or_relay net resolver addr msg now r)
  or_relay-Told now t (ok _, t') told = told
  or_relay-Told now t (err e, t') told =
      let u = record t' { direct_fails = insert addr now t'.direct_fails } in
      Told-from P t u (send_via_relay net resolver addr msg u) told (send_via_relay-Told u)

  send-Told_by :
      (now : ℕ) (t : Transport) (failed : Option ℕ)
      → Told P t (send_after net failed resolver addr msg now t)
  send-Told_by now t none =
      or_relay-Told now t (send_direct net addr msg t)
        (send_direct-Told net P addr msg t (inl refl))
  send-Told_by now t (some failed) = elim (Bool-cases (ltb direct_fail_ttl (now - failed))) [
    | inl late ↦
        let t₁ = record t { direct_fails = delete addr t.direct_fails } in
        rw late (
          or_relay-Told now t (send_direct net addr msg t₁) (
            Told-from P t t₁ (send_direct net addr msg t₁) refl
              (send_direct-Told net P addr msg t₁ (inl refl))))
    | inr held ↦ rw held (send_via_relay-Told t)
  ]

  -- A call of Send that succeeds has told the callback of one message, once, the one given or the one
  -- given with the relay key that the peer map has for the address; one that fails has told it nothing,
  -- however often it has tried.
  pub send-Told : (now : ℕ) (t : Transport) → Told P t (send net resolver addr msg now t)
  unfolding send
  send-Told now t = send-Told_by now t (lookup addr t.direct_fails)
