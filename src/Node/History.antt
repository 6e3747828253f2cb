-- ===== src/Node/History.antt =====
-- The calls and the goroutines of a daemon, as steps, and what each does to a session
-- (internal/daemon/agentserver.go).
use tailbus.Base.{
  zero, suc, ◌-◌, none, List, [], ◌∷◌, ◌++◌, inl, inr, ◌⊎◌, Any, Option-cases, eq_of_some, ℕ, ◌≡◌,
  ◌≢◌, refl, ap, ◌∙◌, String, Bool, true, eq_iff, Option, some, arith, Result, ok, err,
}
use tailbus.Envelope.{Envelope, message}
use tailbus.Trace.{message_created}
use tailbus.Session.{Session, is_open, next_sequence}
use tailbus.Session.Store.{Store, get, is_stale, evict}
use tailbus.Node.{Node, Draw, Task, put_session, trace}
use tailbus.Node.Route.{RouteError, deliver_to_local, route}
use tailbus.Node.Sends.{
  SendRequest, OpenRequest, compose, after_send, SendError, session_for, send_on, resolve_on,
  after_open, open_session, after_mention, run_task,
}
use tailbus.Node.Kept.{trace-sessions, get-put_session, route-Keeps}
use tailbus.Node.Sessions.{resolved_at, mentions-sessions}

pub after_open-sessions :
    (env : Envelope) (r : Result RouteError (Unit {0})) (n : Node)
    → (after_open env (r, n)).1.sessions ≡ n.sessions
after_open-sessions env (err e) n = refl
after_open-sessions env (ok u) n =
    mentions-sessions env.from_handle env.to_handle env.content_type env.payload _

pub after_mention-sessions :
    (env : Envelope) (r : Result RouteError (Unit {0})) (n : Node)
    → (after_mention env (r, n)).sessions ≡ n.sessions
after_mention-sessions env (err e) n = refl
after_mention-sessions env (ok u) n = refl

-- A call of an agent that holds its copy of a session, between the read and the write: no lock is held
-- over the two.
pub data Underway : Type 0 where
  sending resolving : SendRequest → Session → Underway

abbrev pub copy_of : Underway → Session
copy_of (sending req copy) = copy
copy_of (resolving req copy) = copy

pub record Daemon : Type 0 where
  pub node : Node
  pub calls : List Underway

-- A step of the daemon: an open, the first half of a send or a resolve, which reads the session, the rest
-- of the call at that place, an envelope from the transport, a goroutine that was spawned, or a tick of the
-- eviction.
pub data Step : Type 0 where
  opens : Option ℕ → OpenRequest → Step
  begins_send begins_resolve : Option ℕ → SendRequest → Step
  goes_on : ℕ → Step
  receives : Envelope → Step
  runs : Task → Step
  evicts : ℕ → Step

abbrev pub begin : (Session → Underway) → Result SendError Session → Daemon → Daemon
begin f (err e) d = d
begin f (ok copy) d = record d { calls = f copy ∷ d.calls }

abbrev pub go_on : (String → Bool) → Draw → Underway → Node → Node
go_on down x (sending req copy) n = (send_on down x req copy n).1
go_on down x (resolving req copy) n = (resolve_on down x req copy n).1

-- The k-th call, and the others.
abbrev pub with_first :
    Underway → Option (Underway × List Underway) → Option (Underway × List Underway)
with_first c none = none
with_first c (some (found, rest)) = some (found, c ∷ rest)

unfoldable pub pick : ℕ → List Underway → Option (Underway × List Underway)
pick k [] = none
pick zero (c ∷ cs) = some (c, cs)
pick (suc k) (c ∷ cs) = with_first c (pick k cs)

abbrev pub picked : (String → Bool) → Draw → Option (Underway × List Underway) → Daemon → Daemon
picked down x none d = d
picked down x (some (c, rest)) d = record { node = go_on down x c d.node; calls = rest }

-- A tick of the eviction, with the callbacks for what it removes.
abbrev pub evict_node : ℕ → ℕ → Node → Node
evict_node ttl now n =
    let (st, calls, count) = evict ttl now n.sessions in
    record n { sessions = st; persisted = n.persisted ++ calls }

unfoldable pub step : (String → Bool) → Draw → Step → Daemon → Daemon
step down x (opens conn req) d = record d { node = (open_session down x conn req d.node).1 }
step down x (begins_send conn req) d = begin (sending req) (session_for conn req d.node) d
step down x (begins_resolve conn req) d = begin (resolving req) (session_for conn req d.node) d
step down x (goes_on k) d = picked down x (pick k d.calls) d
step down x (receives env) d = record d { node = (deliver_to_local x env d.node).1 }
step down x (runs task) d = record d { node = run_task down x task d.node }
step down x (evicts ttl) d = record d { node = evict_node ttl x.now d.node }

pub pick-listed :
    (k : ℕ) (cs rest : List Underway) (c : Underway)
    → pick k cs ≡ some (c, rest)
    → Any (λ y. y ≡ c) cs
unfolding pick
pick-listed k [] rest c e = cc
pick-listed zero (y ∷ ys) rest c e = inl (ap (λ r. r.0) (eq_of_some e))
pick-listed (suc k) (y ∷ ys) rest c e = elim (Option-cases (pick k ys)) [
  | inl f ↦ absurd (missing (rw f at e))
  | inr ((found, others), f) ↦ inr (
      pick-listed k ys others c
        (f ∙ ap (λ z. some (z, others)) (ap (λ r. r.0) (eq_of_some (rw f at e)))))
]
  where
    missing : ◌≢◌ {A = Option (Underway × List Underway)} none (some (c, rest))
    missing g = cc

-- What a step has made of a session: nothing; an eviction that was due has taken it away; or a call under
-- way has put what it made of its copy in its place.
abbrev pub Changed : ℕ → Step → List Underway → String → Session → Store → Type 0
Changed now op calls id s st =
    (get id st ≡ some s)
    ⊎ (((ttl : ℕ) × (op ≡ evicts ttl) × (is_stale (now - ttl) s ≡ true) × (get id st ≡ none))
        ⊎ ((c : Underway) × Any (λ y. y ≡ c) calls
            × ((copy_of c).id ≡ id)
            × ((get id st ≡ some (next_sequence (copy_of c) now).1)
                ⊎ (get id st ≡ some (resolved_at now (copy_of c))))))

after_send-kept :
    (env : Envelope) (r : Result RouteError (Unit {0})) (n : Node)
    → (after_send env (r, n)).1.sessions ≡ n.sessions
after_send-kept env (err e) n = refl
after_send-kept env (ok u) n =
    mentions-sessions env.from_handle env.to_handle env.content_type env.payload _

-- SendMessage reads, changes and writes a session in three steps. A send that took its copy while
-- the session was open makes it open again, whatever the daemon holds by then, a resolved session
-- included.
pub late_send_reopens :
    (down : String → Bool) (x : Draw) (req : SendRequest) (copy : Session) (n : Node)
    → is_open copy.state ≡ true
    → (s : Session) × (get copy.id (send_on down x req copy n).1.sessions ≡ some s)
      × (is_open s.state ≡ true)
unfolding send_on next_sequence
late_send_reopens down x req copy n o =
    let (seq, s) = next_sequence copy x.now in
    let env = compose message x req seq s in
    let put = trace message_created env (put_session s n) in
    let r = route down x env put in
    (
      s,
      ap (get copy.id) (after_send-kept env r.0 r.1)
          ∙ route-Keeps down x env put copy.id s (
              ap (get copy.id) (trace-sessions message_created env (put_session s n))
              ∙ get-put_session copy.id s n
              ∙ ground (arith, eq_iff copy.id copy.id)),
      o,
    )
