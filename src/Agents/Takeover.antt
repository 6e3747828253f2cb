-- ===== src/Agents/Takeover.antt =====
-- How a handle gets and loses its owner (internal/daemon/agentserver.go).
use tailbus.Base.{
  ℕ, ◌≡◌, refl, ap, ◌≢◌, String, Bool, false, eq_iff, Option, none, some, List, arith, inl, inr,
  Bool-cases, eqb, eqb_iff, if◌then◌else◌, lookup, lookup-insert, Result, ok, err,
}
use tailbus.Agents.{
  bind_owner, AuthError, add_subscriber, remove_subscriber, has, AgentServer, has_handle, register,
  subscribe, unsubscribe, disconnect_conn, verify_ownership,
}
use tailbus.Agents.Deliver.{deliver_room_event_local}
use tailbus.Agents.Same.{deliver_event-SameNames}
use tailbus.Agents.Dropped.{lookup-without_names, disconnect-Dropped}
use tailbus.Agents.Ownership.{
  IsOwned, Op, registers, subscribes, unsubscribes, disconnects, gets_event, step,
}

bind_owner-kept :
    (conn : Option ℕ) (c : ℕ) (h k : String) (s : AgentServer)
    → IsOwned s
    → has_handle k s ≡ false
    → lookup h s.handle_owner ≡ some c
    → lookup h (bind_owner conn k s.handle_owner) ≡ some c
bind_owner-kept none c h k s w e o = o
bind_owner-kept (some j) c h k s w e o =
    ground (arith, lookup-insert k h j s.handle_owner, w.registered c h o, eq_iff k h, e, o)

add_subscriber-owner :
    (r : Result AuthError (Unit {0})) (h : String) (s : AgentServer)
    → (add_subscriber r h s).1.handle_owner ≡ s.handle_owner
add_subscriber-owner (err e) h s = refl
add_subscriber-owner (ok u) h s = refl

remove_subscriber-owner :
    (o : Option (List ℕ)) (h : String) (ch : ℕ) (s : AgentServer)
    → (remove_subscriber o h ch s).handle_owner ≡ s.handle_owner
remove_subscriber-owner none h ch s = refl
remove_subscriber-owner (some chs) h ch s = refl

-- Once a connection owns a handle, no other event than the end of that connection takes the handle
-- from it: neither another registration, nor the end of another connection.
pub step-owner :
    (op : Op) (s : AgentServer) (c : ℕ) (h : String)
    → IsOwned s
    → lookup h s.handle_owner ≡ some c
    → op ≢ disconnects c
    → lookup h (step op s).handle_owner ≡ some c
unfolding step register subscribe unsubscribe deliver_room_event_local
step-owner (registers conn req) s c h w o n = elim (Bool-cases (has_handle req.handle s)) [
  | inl e ↦ rw (e, step, register) o
  | inr e ↦ rw (e, step, register) (bind_owner-kept conn c h req.handle s w e o)
]
step-owner (subscribes conn k) s c h w o n =
    rw (add_subscriber-owner (verify_ownership conn k s) k s) o
step-owner (unsubscribes k ch) s c h w o n =
    rw (remove_subscriber-owner (lookup k s.subscribers) k ch s) o
step-owner (disconnects k) s c h w o n =
    let other : k ≢ c = λ e. n (ap disconnects e) in
    rw (disconnect-Dropped k s).owner_eq (
      ground
        (arith, lookup-without_names (s.conn_handles k) h s.handle_owner, w.owner_of k h, o, other))
step-owner (gets_event event) s c h w o n =
    rw (deliver_event-SameNames event event.members s).same_owner o

-- Whether the connection is the owner of the handle.
abbrev pub owned_by : ℕ → String → AgentServer → Bool
owned_by c h s = elim (lookup h s.handle_owner) [ none ↦ false | some k ↦ eqb k c ]

-- The end of a connection releases exactly the handles that it owns: their names, manifests,
-- owners and subscriptions go, and those of any other handle stay as they were.
pub disconnect_releases :
    (c : ℕ) (h : String) (s : AgentServer)
    → IsOwned s
    → let t = disconnect_conn c s in
      let mine = owned_by c h s in
      (lookup h t.handle_owner ≡ (if mine then none else lookup h s.handle_owner))
      × (lookup h t.handles ≡ (if mine then none else lookup h s.handles))
      × (lookup h t.manifests ≡ (if mine then none else lookup h s.manifests))
      × (lookup h t.subscribers ≡ (if mine then none else lookup h s.subscribers))
disconnect_releases c h s w =
    let d = disconnect-Dropped c s in
    let hs = s.conn_handles c in
    let same : has h hs ≡ owned_by c h s =
      ground (arith, w.owner_of c h, w.handles_of c h, eqb_iff c c) in
    (
      rw (d.owner_eq, ← same) (lookup-without_names hs h s.handle_owner),
      rw (d.handles_eq, ← same) (lookup-without_names hs h s.handles),
      rw (d.manifests_eq, ← same) (lookup-without_names hs h s.manifests),
      rw (d.subscribers_eq, ← same) (lookup-without_names hs h s.subscribers),
    )
