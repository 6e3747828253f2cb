-- ===== src/Node/Tracked.antt =====
-- What a route sends, and what the tracker learns of it (internal/daemon/router.go).
use tailbus.Base.{
  ℕ, ◌≡◌, refl, ap, ◌∙◌, String, Bool, true, false, ◌==◌, ◌&&◌, not, some, List, [], ◌∷◌, ◌++◌, inl,
  inr, ◌⊎◌, Bool-cases, Result, ok, err, lookup, lookup-insert_self,
}
use tailbus.Envelope.{Envelope, is_ack}
use tailbus.Trace.{TraceAction, delivered_to_subscriber}
use tailbus.Resolver.{PeerInfo, NotFound, resolve}
use tailbus.Session.Store.{get}
use tailbus.Acks.{AckTracker, Pending, track}
use tailbus.Agents.{subs, has_handle}
use tailbus.Node.{Node, Draw, put_session, trace}
use tailbus.Node.Route.{
  adopt, opens_session, missing, hand_over, settle, deliver_to_local, record_route_done,
  finish_local, track_sent, send_to, route,
}

-- The transport's part of the state, and the tracker.
pub record SameSends (n n' : Node) : Type 0 where
  pub same_outbox : n'.outbox ≡ n.outbox
  pub same_tracker : n'.tracker ≡ n.tracker

SameSends-trans : (a b c : Node) → SameSends a b → SameSends b c → SameSends a c
SameSends-trans a b c p q = record {
  same_outbox = q.same_outbox ∙ p.same_outbox;
  same_tracker = q.same_tracker ∙ p.same_tracker;
}

trace-SameSends : (a : TraceAction) (env : Envelope) (n : Node) → SameSends n (trace a env n)
unfolding trace
trace-SameSends a env n = elim (Bool-cases (env.trace_id == "")) [
  | inl e ↦ rw (e, trace) (record { same_outbox = refl; same_tracker = refl })
  | inr e ↦ rw (e, trace) (record { same_outbox = refl; same_tracker = refl })
]

done-SameSends :
    (env : Envelope) (remote : Bool) (n : Node) → SameSends n (record_route_done env remote n)
unfolding record_route_done
done-SameSends env remote n = elim (Bool-cases (is_ack env.type)) [
  | inl e ↦ rw (e, record_route_done) (trace-SameSends _ env n)
  | inr e ↦
      rw (e, record_route_done)
        (SameSends-trans n _ _ (record { same_outbox = refl; same_tracker = refl })
          (trace-SameSends _ env _))
]

adopt-outbox : (x : Draw) (env : Envelope) (n : Node) → (adopt x env n).outbox ≡ n.outbox
unfolding adopt put_session
adopt-outbox x env n =
    elim (Bool-cases (
      opens_session env.type
      && not (env.session_id == "")
      && missing (get env.session_id n.sessions))) [
        | inl e ↦ rw (e, adopt) refl
        | inr e ↦ rw (e, adopt) refl
      ]

hand_over-outbox :
    (x : Draw) (env : Envelope) (chs : List ℕ) (n : Node)
    → (hand_over x env chs n).1.outbox ≡ n.outbox
unfolding hand_over
hand_over-outbox x env [] n = refl
hand_over-outbox x env (ch ∷ chs) n = elim (Bool-cases (env.from_handle == "")) [
  | inl e ↦ rw e (trace-SameSends delivered_to_subscriber env _).same_outbox
  | inr e ↦ rw e (trace-SameSends delivered_to_subscriber env _).same_outbox
]

settle-outbox : (env : Envelope) (n : Node) → (settle env n).outbox ≡ n.outbox
settle-outbox env n = elim (Bool-cases (env.ack_id == "")) [ inl e ↦ rw e refl | inr e ↦ rw e refl ]

deliver-outbox :
    (x : Draw) (env : Envelope) (n : Node) → (deliver_to_local x env n).1.outbox ≡ n.outbox
unfolding deliver_to_local
deliver-outbox x env n = elim (Bool-cases (is_ack env.type)) [
  | inl e ↦ rw (e, deliver_to_local) (settle-outbox env n)
  | inr e ↦
      rw (e, deliver_to_local)
        (hand_over-outbox x env (subs env.to_handle n.agents) (adopt x env n)
          ∙ adopt-outbox x env n)
]

finish_local-outbox :
    (env : Envelope) (taken : Bool) (n : Node) → (finish_local env (taken, n)).1.outbox ≡ n.outbox
finish_local-outbox env true n = (done-SameSends env false n).same_outbox
finish_local-outbox env false n = refl

-- The entry of a message that has just gone to the address.
abbrev pub first_try : Draw → Envelope → String → Pending
first_try x env addr = record { env = env; peer_addr = addr; sent_at = x.now; retries = 0 }

-- Nothing went out, or the envelope went to the peer that serves its handle, and either it is an
-- ACK or the tracker waits for one.
abbrev pub Accounted : Draw → Envelope → Node → Node → Type 0
Accounted x env n n' =
    (n'.outbox ≡ n.outbox)
    ⊎ ((peer : PeerInfo) × (resolve env.to_handle n.resolver ≡ ok peer)
        × (n'.outbox ≡ n.outbox ++ (peer.advertise_addr, env) ∷ [])
        × ((is_ack env.type ≡ true)
            ⊎ (lookup env.message_id n'.tracker.pending
                ≡ some (first_try x env peer.advertise_addr))))

send_to-Accounted :
    (down : String → Bool) (x : Draw) (env : Envelope) (r : Result NotFound PeerInfo) (n : Node)
    → resolve env.to_handle n.resolver ≡ r
    → Accounted x env n (send_to down x env r n).1
unfolding track
send_to-Accounted down x env (err e) n found = inl refl
send_to-Accounted down x env (ok peer) n found =
    let sent = record n { outbox = n.outbox ++ (peer.advertise_addr, env) ∷ [] } in
    elim (Bool-cases (down peer.advertise_addr)) [
      | inl e ↦ inl (rw e refl)
      | inr e ↦ rw e (
          inr (
            peer,
            found,
            (done-SameSends env true _).same_outbox ∙ track_sent-outbox sent,
            tracked sent,
          ))
    ]
  where
    track_sent-outbox : (m : Node) → (track_sent x env peer.advertise_addr m).outbox ≡ m.outbox
    track_sent-outbox m = elim (Bool-cases (is_ack env.type)) [
      | inl e ↦ rw e refl
      | inr e ↦ rw e refl
    ]

    tracked :
        (m : Node)
        → (is_ack env.type ≡ true)
          ⊎ (lookup env.message_id
                (record_route_done env true
                  (track_sent x env peer.advertise_addr m)).tracker.pending
              ≡ some (first_try x env peer.advertise_addr))
    tracked m = elim (Bool-cases (is_ack env.type)) [
      | inl e ↦ inl e
      | inr e ↦ inr (
          ap (λ (t : AckTracker). lookup env.message_id t.pending)
            (done-SameSends env true (track_sent x env peer.advertise_addr m)).same_tracker
          ∙ rw e (
              lookup-insert_self env.message_id (first_try x env peer.advertise_addr)
                m.tracker.pending))
    ]

-- A route puts nothing on the wire, or exactly the envelope, to the address of the peer that serves
-- its handle; and a message on the wire that is not an ACK is one that the tracker waits for, with
-- that address and no retry yet.
pub route-Accounted :
    (down : String → Bool) (x : Draw) (env : Envelope) (n : Node)
    → Accounted x env n (route down x env n).1
unfolding route
route-Accounted down x env n = elim (Bool-cases (has_handle env.to_handle n.agents)) [
  | inl e ↦
      rw (e, route)
        (inl (
          finish_local-outbox env (deliver_to_local x env n).0 (deliver_to_local x env n).1
          ∙ deliver-outbox x env n))
  | inr e ↦ rw (e, route) (send_to-Accounted down x env (resolve env.to_handle n.resolver) n refl)
]
