-- ===== src/Agents/Ownership.antt =====
-- Who owns a handle (internal/daemon/agentserver.go).
use tailbus.Base.{
  ℕ, ◌≡◌, String, true, false, ◌==◌, eq_iff, Option, none, some, List, [], ◌∷◌, arith, inl, inr,
  ◌||◌, ◌&&◌, Bool-cases, eqb, eqb_iff, if◌then◌else◌, lookup, insert, lookup-insert, Result, ok,
  err,
}
use tailbus.Agents.{
  AuthError, add_subscriber, remove_subscriber, Names, has, AgentServer, RegisterRequest, update,
  has_handle, register, subscribe, unsubscribe, disconnect_conn, verify_ownership,
}
use tailbus.Rooms.{RoomEvent}
use tailbus.Agents.Deliver.{deliver_room_event_local}
use tailbus.Agents.Same.{SameNames, deliver_event-SameNames}
use tailbus.Agents.Dropped.{without_names, lookup-without_names, disconnect-Dropped}

-- The two maps of owners agree, and what has an owner is registered.
pub record IsOwned (s : AgentServer) : Type 0 where
  pub owner_of :
      (c : ℕ) (h : String) → has h (s.conn_handles c) ≡ true → lookup h s.handle_owner ≡ some c
  pub handles_of :
      (c : ℕ) (h : String) → lookup h s.handle_owner ≡ some c → has h (s.conn_handles c) ≡ true
  pub registered : (c : ℕ) (h : String) → lookup h s.handle_owner ≡ some c → has h s.handles ≡ true

has-insert : (k j : String) (d : Names) → has j (insert k tt d) ≡ ((k == j) || has j d)
has-insert k j d = ground (arith, lookup-insert k j tt d)

has-without_names :
    (hs : Names) (j : String) (d : Names)
    → has j (without_names hs d) ≡ (if has j hs then false else has j d)
has-without_names hs j d = ground (arith, lookup-without_names hs j d)

-- A name bound to one connection: the handles of each connection after it.
has-bound :
    (c k : ℕ) (h j : String) (m : ℕ → Names)
    → has j (update c (insert h tt (m c)) m k) ≡ ((eqb c k && (h == j)) || has j (m k))
has-bound c k h j m = ground (arith, has-insert h j (m c), eqb_iff c k)

register-IsOwned :
    (conn : Option ℕ) (req : RegisterRequest) (s : AgentServer)
    → IsOwned s
    → IsOwned (register conn req s).1
unfolding register
register-IsOwned none req s w = elim (Bool-cases (has_handle req.handle s)) [
  | inl e ↦ rw (e, register) w
  | inr e ↦
      rw (e, register)
        (record {
          owner_of = w.owner_of;
          handles_of = w.handles_of;
          registered =
              λ c h o. ground (arith, has-insert req.handle h s.handles, w.registered c h o);
        })
]
register-IsOwned (some c) req s w = elim (Bool-cases (has_handle req.handle s)) [
  | inl e ↦ rw (e, register) w
  | inr e ↦
      rw (e, register)
        (record {
          owner_of = λ k h o. ground (
            arith,
            has-bound c k req.handle h s.conn_handles,
            lookup-insert req.handle h c s.handle_owner,
            w.owner_of k h,
            w.registered k h,
            eq_iff req.handle h,
            eqb_iff c k,
            o,
            e,
          );
          handles_of = λ k h o. ground (
            arith,
            has-bound c k req.handle h s.conn_handles,
            lookup-insert req.handle h c s.handle_owner,
            w.handles_of k h,
            eq_iff req.handle h,
            eqb_iff c k,
            o,
          );
          registered = λ k h o. ground (
            arith,
            has-insert req.handle h s.handles,
            lookup-insert req.handle h c s.handle_owner,
            w.registered k h,
            o,
          );
        })
]

add_subscriber-IsOwned :
    (r : Result AuthError (Unit {0})) (h : String) (s : AgentServer)
    → IsOwned s
    → IsOwned (add_subscriber r h s).1
add_subscriber-IsOwned (err e) h s w = w
add_subscriber-IsOwned (ok u) h s w = record {
  owner_of = w.owner_of;
  handles_of = w.handles_of;
  registered = w.registered;
}

remove_subscriber-IsOwned :
    (o : Option (List ℕ)) (h : String) (ch : ℕ) (s : AgentServer)
    → IsOwned s
    → IsOwned (remove_subscriber o h ch s)
remove_subscriber-IsOwned none h ch s w = w
remove_subscriber-IsOwned (some chs) h ch s w = record {
  owner_of = w.owner_of;
  handles_of = w.handles_of;
  registered = w.registered;
}

has-emptied :
    (c k : ℕ) (j : String) (m : ℕ → Names)
    → has j (update c [] m k) ≡ (if eqb c k then false else has j (m k))
unfolding lookup
has-emptied c k j m = ground arith

disconnect-IsOwned : (c : ℕ) (s : AgentServer) → IsOwned s → IsOwned (disconnect_conn c s)
disconnect-IsOwned c s w =
    let d = disconnect-Dropped c s in
    let hs = s.conn_handles c in
    record {
      owner_of = λ k h.
          rw (d.owner_eq, d.conn_eq)
            (λ o. ground (
              arith,
              has-emptied c k h s.conn_handles,
              lookup-without_names hs h s.handle_owner,
              w.owner_of k h,
              w.owner_of c h,
              eqb_iff c k,
              o,
            ));
      handles_of = λ k h.
          rw (d.owner_eq, d.conn_eq)
            (λ o. ground (
              arith,
              has-emptied c k h s.conn_handles,
              lookup-without_names hs h s.handle_owner,
              w.handles_of k h,
              eqb_iff c k,
              o,
            ));
      registered = λ k h.
          rw (d.owner_eq, d.handles_eq)
            (λ o. ground (
              arith,
              lookup-without_names hs h s.handle_owner,
              has-without_names hs h s.handles,
              w.registered k h,
              o,
            ));
    }

-- One event at the server. A subscription ends by its deferred function, at any later time.
pub data Op : Type 0 where
  registers : Option ℕ → RegisterRequest → Op
  subscribes : Option ℕ → String → Op
  unsubscribes : String → ℕ → Op
  disconnects : ℕ → Op
  gets_event : RoomEvent → Op

unfoldable pub step : Op → AgentServer → AgentServer
step (registers conn req) s = (register conn req s).1
step (subscribes conn h) s = (subscribe conn h s).1
step (unsubscribes h ch) s = unsubscribe h ch s
step (disconnects c) s = disconnect_conn c s
step (gets_event event) s = (deliver_room_event_local event s).1

unfoldable pub run : List Op → AgentServer → AgentServer
run [] s = s
run (op ∷ ops) s = run ops (step op s)

same-IsOwned : (s t : AgentServer) → SameNames s t → IsOwned s → IsOwned t
same-IsOwned s t e w = record {
  owner_of = λ c h. rw (e.same_conn, e.same_owner) (w.owner_of c h);
  handles_of = λ c h. rw (e.same_conn, e.same_owner) (w.handles_of c h);
  registered = λ c h. rw (e.same_handles, e.same_owner) (w.registered c h);
}

-- Every event keeps the maps of owners in agreement: a connection holds exactly the handles whose
-- owner it is, and a handle with an owner is registered.
pub step-IsOwned : (op : Op) (s : AgentServer) → IsOwned s → IsOwned (step op s)
unfolding step subscribe unsubscribe deliver_room_event_local
step-IsOwned (registers conn req) s w = register-IsOwned conn req s w
step-IsOwned (subscribes conn h) s w = add_subscriber-IsOwned (verify_ownership conn h s) h s w
step-IsOwned (unsubscribes h ch) s w = remove_subscriber-IsOwned (lookup h s.subscribers) h ch s w
step-IsOwned (disconnects c) s w = disconnect-IsOwned c s w
step-IsOwned (gets_event event) s w =
    same-IsOwned s _ (deliver_event-SameNames event event.members s) w
