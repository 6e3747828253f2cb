-- ===== src/Node/Filed.antt =====
-- Every session stands under its own ID, and each step of the daemon keeps it so
-- (internal/daemon/agentserver.go).
use tailbus.Base.{
  ℕ, ◌-◌, refl, Option, none, Dict, IsMap, insert-IsMap, delete-IsMap, delete, ◌≡◌, ◌≢◌, sym, ◌∙◌,
  subst, String, Bool, ◌==◌, ◌&&◌, not, eq_iff, some, List, [], ◌∷◌, arith, inl, inr, Bool-cases,
  Result, ok, err, if◌then◌else◌,
}
use tailbus.Envelope.{Envelope, is_ack, message, session_resolve}
use tailbus.Trace.{message_created}
use tailbus.Session.{Session, state_resolved, is_open, new, next_sequence, resolve}
use tailbus.Session.Store.{Store, get, put, is_stale, evict_loop, evict}
use tailbus.Session.Store.Evict.{fresh, get-evict}
use tailbus.Agents.{AuthError, subs, has_handle, verify_ownership}
use tailbus.Node.{Node, Draw, Task, route_ack, open_mention, put_session, trace}
use tailbus.Node.Route.{RouteError, adopted, adopt, opens_session, missing, deliver_to_local, route}
use tailbus.Node.Sends.{
  SendError, SendRequest, OpenRequest, session_for, compose, sent_ok, send_on, after_resolve,
  resolve_on, opening, open_owned, open_session, open_mention_session, run_task,
}
use tailbus.Node.Kept.{
  get-put_session, trace-sessions, settle-sessions, hand_over-sessions, finish_local-sessions,
  send_to-sessions,
}
use tailbus.Node.Sessions.{mentions-sessions, after_send-sessions}
use tailbus.Node.History.{
  Underway, sending, resolving, Daemon, begin, pick, picked, evict_node, Step, opens, begins_send,
  begins_resolve, goes_on, receives, runs, evicts, step, after_open-sessions,
  after_mention-sessions,
}

-- Each session stands under its own ID, and no ID twice.
pub record Filed (st : Store) : Type 0 where
  pub named : (id : String) (s : Session) → get id st ≡ some s → s.id ≡ id
  pub once : IsMap st.sessions

same-Filed : (st st' : Store) → st' ≡ st → Filed st → Filed st'
same-Filed st st' e f = subst Filed (sym e) f

put-Filed : (s : Session) (n : Node) → Filed n.sessions → Filed (put_session s n).sessions
unfolding put_session put
put-Filed s n f = record {
  named = λ id t h. elim (Bool-cases (s.id == id)) [
    | inl e ↦ ground (arith, get-put_session id s n, eq_iff s.id id, e, h)
    | inr e ↦ f.named id t (ground (arith, get-put_session id s n, e, h))
  ];
  once = insert-IsMap s.id s n.sessions.sessions f.once;
}

evict_loop-IsMap :
    (cutoff : ℕ) (entries m : Dict Session) → IsMap m → IsMap (evict_loop cutoff entries m).0
unfolding evict_loop
evict_loop-IsMap cutoff [] m h = h
evict_loop-IsMap cutoff ((id, s) ∷ rest) m h = elim (Bool-cases (is_stale cutoff s)) [
  | inl due ↦ rw due (evict_loop-IsMap cutoff rest (delete id m) (delete-IsMap id m h))
  | inr young ↦ rw young (evict_loop-IsMap cutoff rest m h)
]

evict-Filed : (ttl now : ℕ) (n : Node) → Filed n.sessions → Filed (evict_node ttl now n).sessions
unfolding evict
evict-Filed ttl now n f = record {
  named = λ id s h.
      was_there id s (get id n.sessions) refl (sym (get-evict ttl now id n.sessions f.once) ∙ h);
  once = evict_loop-IsMap (now - ttl) n.sessions.sessions n.sessions.sessions f.once;
}
  where
    none_some : (s : Session) → ◌≢◌ {A = Option Session} none (some s)
    none_some s e = cc

    was_there :
        (id : String) (s : Session) (o : Option Session)
        → get id n.sessions ≡ o
        → fresh (now - ttl) o ≡ some s
        → s.id ≡ id
    was_there id s none e h = cc
    was_there id s (some t) e h = elim (Bool-cases (is_stale (now - ttl) t)) [
      | inl due ↦ absurd (none_some s (rw due at h))
      | inr young ↦ f.named id s (e ∙ (rw young at h))
    ]

adopt-Filed :
    (x : Draw) (env : Envelope) (n : Node) → Filed n.sessions → Filed (adopt x env n).sessions
unfolding adopt
adopt-Filed x env n f =
    elim (Bool-cases (
      opens_session env.type
      && not (env.session_id == "")
      && missing (get env.session_id n.sessions))) [
        | inl e ↦ rw (e, adopt) (put-Filed (adopted x env) n f)
        | inr e ↦ rw (e, adopt) f
      ]

deliver-Filed :
    (x : Draw) (env : Envelope) (n : Node)
    → Filed n.sessions
    → Filed (deliver_to_local x env n).1.sessions
unfolding deliver_to_local
deliver-Filed x env n f = elim (Bool-cases (is_ack env.type)) [
  | inl e ↦ rw (e, deliver_to_local) (same-Filed n.sessions _ (settle-sessions env n) f)
  | inr e ↦
      rw (e, deliver_to_local)
        (same-Filed (adopt x env n).sessions _
          (hand_over-sessions x env (subs env.to_handle n.agents) (adopt x env n))
          (adopt-Filed x env n f))
]

route-Filed :
    (down : String → Bool) (x : Draw) (env : Envelope) (n : Node)
    → Filed n.sessions
    → Filed (route down x env n).1.sessions
unfolding route
route-Filed down x env n f = elim (Bool-cases (has_handle env.to_handle n.agents)) [
  | inl e ↦
      rw (e, route)
        (same-Filed (deliver_to_local x env n).1.sessions _
          (finish_local-sessions env (deliver_to_local x env n).0 (deliver_to_local x env n).1)
          (deliver-Filed x env n f))
  | inr e ↦ rw (e, route) (same-Filed n.sessions _ (send_to-sessions down x env _ n) f)
]

trace_put-Filed :
    (env : Envelope) (s : Session) (n : Node)
    → Filed n.sessions
    → Filed (trace message_created env (put_session s n)).sessions
trace_put-Filed env s n f =
    same-Filed (put_session s n).sessions _ (trace-sessions message_created env (put_session s n))
      (put-Filed s n f)

send_on-Filed :
    (down : String → Bool) (x : Draw) (req : SendRequest) (sess : Session) (n : Node)
    → Filed n.sessions
    → Filed (send_on down x req sess n).1.sessions
unfolding send_on
send_on-Filed down x req sess n f =
    let (seq, sess') = next_sequence sess x.now in
    let env = compose message x req seq sess' in
    let put = trace message_created env (put_session sess' n) in
    let r = route down x env put in
    same-Filed r.1.sessions _ (after_send-sessions env r.0 r.1)
      (route-Filed down x env put (trace_put-Filed env sess' n f))

after_resolve-Filed :
    (x : Draw) (sess : Session) (env : Envelope) (r : Result RouteError (Unit {0})) (n : Node)
    → Filed n.sessions
    → Filed (after_resolve x sess env (r, n)).1.sessions
unfolding resolve
after_resolve-Filed x sess env (err e) n f = f
after_resolve-Filed x sess env (ok u) n f = elim (Bool-cases (is_open sess.state)) [
  | inr o ↦ rw o (sent f)
  | inl o ↦ rw o (
      put-Filed (record sess { state = state_resolved; updated_at = x.now }) (sent_ok env n)
        (sent f))
]
  where
    sent : Filed n.sessions → Filed (sent_ok env n).sessions
    sent f =
        same-Filed n.sessions _
          (mentions-sessions env.from_handle env.to_handle env.content_type env.payload _) f

resolve_on-Filed :
    (down : String → Bool) (x : Draw) (req : SendRequest) (sess : Session) (n : Node)
    → Filed n.sessions
    → Filed (resolve_on down x req sess n).1.sessions
unfolding resolve_on
resolve_on-Filed down x req sess n f =
    let (seq, sess') = next_sequence sess x.now in
    let env = compose session_resolve x req seq sess' in
    let put = trace message_created env n in
    let r = route down x env put in
    after_resolve-Filed x sess' env r.0 r.1 (
      route-Filed down x env put (same-Filed n.sessions _ (trace-sessions message_created env n) f))

open_owned-Filed :
    (down : String → Bool) (x : Draw) (req : OpenRequest) (r : Result AuthError (Unit {0}))
    (n : Node)
    → Filed n.sessions
    → Filed (open_owned down x req r n).1.sessions
open_owned-Filed down x req (err e) n f = f
open_owned-Filed down x req (ok u) n f =
    let trace_id = if req.trace_id == "" then x.trace_id else req.trace_id in
    let sess = record (new x.session_id req.from_handle req.to_handle x.now) {
      trace_id = trace_id;
    } in
    let (seq, sess') = next_sequence sess x.now in
    let env = opening x trace_id req seq sess' in
    let put = trace message_created env (put_session sess' n) in
    let r = route down x env put in
    same-Filed r.1.sessions _ (after_open-sessions env r.0 r.1)
      (route-Filed down x env put (trace_put-Filed env sess' n f))

run_task-Filed :
    (down : String → Bool) (x : Draw) (task : Task) (n : Node)
    → Filed n.sessions
    → Filed (run_task down x task n).sessions
unfolding run_task open_mention_session
run_task-Filed down x (route_ack env) n f = route-Filed down x env n f
run_task-Filed down x (open_mention from mentioned payload content_type) n f =
    let req : OpenRequest = record {
      from_handle = from;
      to_handle = mentioned;
      payload = payload;
      content_type = content_type;
      trace_id = "";
    } in
    let sess = record (new x.session_id from mentioned x.now) { trace_id = x.trace_id } in
    let env = opening x x.trace_id req 0 sess in
    let r = route down x env (put_session sess n) in
    same-Filed r.1.sessions _ (after_mention-sessions env r.0 r.1)
      (route-Filed down x env (put_session sess n) (put-Filed sess n f))

pub step-Filed :
    (down : String → Bool) (x : Draw) (op : Step) (d : Daemon)
    → Filed d.node.sessions
    → Filed (step down x op d).node.sessions
unfolding step open_session
step-Filed down x (opens conn req) d f =
    open_owned-Filed down x req (verify_ownership conn req.from_handle d.node.agents) d.node f
step-Filed down x (begins_send conn req) d f = begun (session_for conn req d.node)
  where
    begun : (r : Result SendError Session) → Filed (begin (sending req) r d).node.sessions
    begun (err e) = f
    begun (ok copy) = f
step-Filed down x (begins_resolve conn req) d f = begun (session_for conn req d.node)
  where
    begun : (r : Result SendError Session) → Filed (begin (resolving req) r d).node.sessions
    begun (err e) = f
    begun (ok copy) = f
step-Filed down x (goes_on k) d f = ended (pick k d.calls)
  where
    ended : (o : Option (Underway × List Underway)) → Filed (picked down x o d).node.sessions
    ended none = f
    ended (some (sending req copy, rest)) = send_on-Filed down x req copy d.node f
    ended (some (resolving req copy, rest)) = resolve_on-Filed down x req copy d.node f
step-Filed down x (receives env) d f = deliver-Filed x env d.node f
step-Filed down x (runs task) d f = run_task-Filed down x task d.node f
step-Filed down x (evicts ttl) d f = evict-Filed ttl x.now d.node f
