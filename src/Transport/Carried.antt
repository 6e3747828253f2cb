-- ===== src/Transport/Carried.antt =====
-- A message that a relay takes (internal/transport/grpc.go, sendViaRelay).
use tailbus.Base.{
  ℕ, ◌+◌, ◌≡◌, refl, ◌∙◌, ap, String, ◌==◌, Option, Option-cases, none, some, List, [], ◌∷◌, ◌++◌,
  ok, err, lookup, lookup-insert_self, arith, inl, inr, Bool-cases, Any,
}
use tailbus.Resolver.{RelayInfo}
use tailbus.Relay.{Message}
use tailbus.Transport.{
  Net, Pushed, taken, broken, cut_off, Transport, keep_relay, get_or_connect_relay, forget_relay,
  end_relay, push_relay, try_relays, via_relays, some_relays,
}
use tailbus.Transport.Told.{Outcome}

-- A success has handed over the message once, on the connection that is kept for the address of one of
-- the relays; a failure has handed over none.
abbrev pub Carried : List RelayInfo → Message → Transport → Outcome → Type 0
Carried rs m t (ok _, t') =
    (conn : ℕ) × (t'.sent ≡ t.sent ++ (conn, m) ∷ [])
    × Any (λ (r : RelayInfo). lookup r.addr t'.relay_conns ≡ some conn) rs
Carried rs m t (err _, t') = t'.sent ≡ t.sent

-- As carried by a later relay, from a state with the same list.
later-Carried :
    (r : RelayInfo) (rs : List RelayInfo) (m : Message) (t u : Transport) (o : Outcome)
    → u.sent ≡ t.sent
    → Carried rs m u o
    → Carried (r ∷ rs) m t o
later-Carried r rs m t u (ok x, t') e (conn, f, at) =
    (conn, f ∙ ap (λ l. l ++ (conn, m) ∷ []) e, inr at)
later-Carried r rs m t u (err x, t') e f = f ∙ e

-- The connection for an address, if there is one, is the one kept for it.
abbrev Held : String → Transport → Option ℕ × Transport → Type 0
Held addr t (none, u) = u.sent ≡ t.sent
Held addr t (some conn, u) = (u.sent ≡ t.sent) × (lookup addr u.relay_conns ≡ some conn)

module _ (net : Net) where
  get_or_connect_relay-Held :
      (addr : String) (t : Transport) → Held addr t (get_or_connect_relay net addr t)
  unfolding get_or_connect_relay
  get_or_connect_relay-Held addr t = elim (Option-cases (lookup addr t.relay_conns)) [
    | inl e ↦ rw (e, get_or_connect_relay) (dialled e (net.dial t.ops addr))
    | inr (c, e) ↦ rw (e, get_or_connect_relay) (refl, e)
  ]
    where
      dialled :
          lookup addr t.relay_conns ≡ none
          → (c : Option ℕ) → Held addr t (keep_relay net addr c (record t { ops = t.ops + 1 }))
      dialled e none = refl
      dialled e (some conn) =
          rw (e, Held, keep_relay) (refl, lookup-insert_self addr conn t.relay_conns)

  forget_relay-sent :
      (addr : String) (conn : ℕ) (t : Transport) → (forget_relay net addr conn t).sent ≡ t.sent
  forget_relay-sent addr conn t = ground arith

  try_relays-Carried :
      (rs : List RelayInfo) (m : Message) (t : Transport) → Carried rs m t (try_relays net rs m t)
  unfolding try_relays
  try_relays-Carried [] m t = refl
  try_relays-Carried (r ∷ rs) m t =
      pushed (λ u. try_relays-Carried rs m u) (get_or_connect_relay net r.addr t)
        (get_or_connect_relay-Held r.addr t)
    where
      pushed :
          ((u : Transport) → Carried rs m u (try_relays net rs m u))
          → (g : Option ℕ × Transport) → Held r.addr t g
          → Carried (r ∷ rs) m t (push_relay net r.addr m g (λ t'. try_relays net rs m t'))
      pushed ih (none, u) held = later-Carried r rs m t u (try_relays net rs m u) held (ih u)
      pushed ih (some conn, u) held = ended (net.push u.ops conn)
        where
          ended :
              (x : Pushed)
              → Carried (r ∷ rs) m t (
                  end_relay net r.addr conn m
                    (x, record u { ops = u.ops + 1 })
                    (λ t'. try_relays net rs m t'))
          ended taken = (conn, ap (λ l. l ++ (conn, m) ∷ []) held.0, inl held.1)
          ended broken =
              let u' = record u { ops = u.ops + 1 } in
              later-Carried r rs m t u' (try_relays net rs m u') held.0 (ih u')
          ended cut_off =
              let u' = forget_relay net r.addr conn (record u { ops = u.ops + 1 }) in
              later-Carried r rs m t u' (try_relays net rs m u')
                (forget_relay-sent r.addr conn (record u { ops = u.ops + 1 }) ∙ held.0) (ih u')

  pub via_relays-Carried :
      (rs : List RelayInfo) (msg : Message) (key : String) (t : Transport)
      → Carried rs (record msg { relay_target_key = key }) t (via_relays net rs msg key t)
  via_relays-Carried rs msg key t = elim (Bool-cases (key == "")) [
    | inl keyless ↦ rw keyless refl
    | inr keyed ↦ rw keyed (some_carried rs)
  ]
    where
      some_carried :
          (rs : List RelayInfo)
          → Carried rs
              (record msg { relay_target_key = key })
              t
              (some_relays net rs (record msg { relay_target_key = key }) t)
      some_carried [] = refl
      some_carried (x ∷ rs) = try_relays-Carried (x ∷ rs) (record msg { relay_target_key = key }) t
