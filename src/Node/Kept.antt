-- ===== src/Node/Kept.antt =====
-- Neither a delivery nor a route changes a session that is there (internal/daemon/router.go,
-- internal/daemon/agentserver.go).
use tailbus.Base.{
  ℕ, ◌≡◌, refl, ◌∙◌, String, Bool, true, false, ◌==◌, ◌&&◌, not, eq_iff, some, List, [], ◌∷◌, arith,
  inl, inr, Bool-cases, Result, ok, err, if◌then◌else◌, lookup-insert,
}
use tailbus.Envelope.{Envelope, is_ack}
use tailbus.Trace.{TraceAction, delivered_to_subscriber}
use tailbus.Resolver.{PeerInfo, NotFound}
use tailbus.Session.{Session}
use tailbus.Session.Store.{get, put}
use tailbus.Agents.{subs, has_handle}
use tailbus.Node.{Node, Draw, put_session, trace}
use tailbus.Node.Route.{
  adopted, adopt, opens_session, missing, spawn_ack, hand_over, settle, deliver_to_local,
  record_route_done, finish_local, track_sent, send_to, route,
}

-- Every session that `n` holds is held by `n'`, as it was.
abbrev pub Keeps : Node → Node → Type 0
Keeps n n' = (id : String) (s : Session) → get id n.sessions ≡ some s → get id n'.sessions ≡ some s

pub same-Keeps : (n n' : Node) → n'.sessions ≡ n.sessions → Keeps n n'
same-Keeps n n' e id s = rw e (λ h. h)

pub trace-sessions :
    (a : TraceAction) (env : Envelope) (n : Node) → (trace a env n).sessions ≡ n.sessions
unfolding trace
trace-sessions a env n = elim (Bool-cases (env.trace_id == "")) [
  | inl e ↦ rw (e, trace) refl
  | inr e ↦ rw (e, trace) refl
]

pub get-put_session :
    (id : String) (s : Session) (n : Node)
    → get id (put_session s n).sessions ≡ (if s.id == id then some s else get id n.sessions)
unfolding put_session get put
get-put_session id s n = lookup-insert s.id id s n.sessions.sessions

adopt-Keeps : (x : Draw) (env : Envelope) (n : Node) → Keeps n (adopt x env n)
unfolding adopt
adopt-Keeps x env n id s h =
    elim (Bool-cases (
      opens_session env.type
      && not (env.session_id == "")
      && missing (get env.session_id n.sessions))) [
        | inl e ↦
            rw (e, adopt)
              (ground (arith, get-put_session id (adopted x env) n, eq_iff env.session_id id, h, e))
        | inr e ↦ rw (e, adopt) h
      ]

pub settle-sessions : (env : Envelope) (n : Node) → (settle env n).sessions ≡ n.sessions
settle-sessions env n = elim (Bool-cases (env.ack_id == "")) [
  | inl e ↦ rw (e, settle) refl
  | inr e ↦ rw (e, settle) refl
]

spawn_ack-sessions :
    (x : Draw) (env : Envelope) (n : Node) → (spawn_ack x env n).sessions ≡ n.sessions
spawn_ack-sessions x env n = elim (Bool-cases (env.from_handle == "")) [
  | inl e ↦ rw e refl
  | inr e ↦ rw e refl
]

pub hand_over-sessions :
    (x : Draw) (env : Envelope) (chs : List ℕ) (n : Node)
    → (hand_over x env chs n).1.sessions ≡ n.sessions
unfolding hand_over
hand_over-sessions x env [] n = refl
hand_over-sessions x env (ch ∷ chs) n =
    spawn_ack-sessions x env _ ∙ trace-sessions delivered_to_subscriber env _

pub deliver-Keeps : (x : Draw) (env : Envelope) (n : Node) → Keeps n (deliver_to_local x env n).1
unfolding deliver_to_local
deliver-Keeps x env n id s h = elim (Bool-cases (is_ack env.type)) [
  | inl e ↦ rw (e, deliver_to_local, settle-sessions env n) h
  | inr e ↦
      rw
        (
          e,
          deliver_to_local,
          hand_over-sessions x env (subs env.to_handle n.agents) (adopt x env n),
        )
        (adopt-Keeps x env n id s h)
]

pub done-sessions :
    (env : Envelope) (remote : Bool) (n : Node)
    → (record_route_done env remote n).sessions ≡ n.sessions
unfolding record_route_done
done-sessions env remote n = elim (Bool-cases (is_ack env.type)) [
  | inl e ↦ rw (e, record_route_done) (trace-sessions _ env _)
  | inr e ↦ rw (e, record_route_done) (trace-sessions _ env _)
]

pub finish_local-sessions :
    (env : Envelope) (taken : Bool) (n : Node)
    → (finish_local env (taken, n)).1.sessions ≡ n.sessions
finish_local-sessions env true n = done-sessions env false n
finish_local-sessions env false n = refl

track_sent-sessions :
    (x : Draw) (env : Envelope) (addr : String) (n : Node)
    → (track_sent x env addr n).sessions ≡ n.sessions
track_sent-sessions x env addr n = elim (Bool-cases (is_ack env.type)) [
  | inl e ↦ rw e refl
  | inr e ↦ rw e refl
]

pub send_to-sessions :
    (down : String → Bool) (x : Draw) (env : Envelope) (r : Result NotFound PeerInfo) (n : Node)
    → (send_to down x env r n).1.sessions ≡ n.sessions
send_to-sessions down x env (err e) n = refl
send_to-sessions down x env (ok peer) n = elim (Bool-cases (down peer.advertise_addr)) [
  | inl e ↦ rw e refl
  | inr e ↦ rw e (done-sessions env true _ ∙ track_sent-sessions x env peer.advertise_addr _)
]

pub route-Keeps :
    (down : String → Bool) (x : Draw) (env : Envelope) (n : Node) → Keeps n (route down x env n).1
unfolding route
route-Keeps down x env n id s h = elim (Bool-cases (has_handle env.to_handle n.agents)) [
  | inl e ↦
      rw
        (
          e,
          route,
          finish_local-sessions env (deliver_to_local x env n).0 (deliver_to_local x env n).1,
        )
        (deliver-Keeps x env n id s h)
  | inr e ↦ rw (e, route, send_to-sessions down x env _ n) h
]
