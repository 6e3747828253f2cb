-- ===== src/Node/Sessions.antt =====
-- What the daemon does to its sessions (internal/daemon/agentserver.go): each moves by its own state
-- machine, and nothing else touches it.
use tailbus.Base.{
  ℕ, ◌≡◌, refl, ap, ◌∙◌, String, Bool, true, ◌==◌, eq_iff, Option, none, some, arith, inl, inr, ◌⊎◌,
  Bool-cases, Result, ok, err, ◌>>=◌, ◌>>◌, guard, from_option, if◌then◌else◌,
}
use tailbus.Envelope.{Envelope, message, session_resolve}
use tailbus.Trace.{message_created}
use tailbus.Session.{Session, state_resolved, is_open, next_sequence, resolve, involves}
use tailbus.Session.Store.{Store, get}
use tailbus.Agents.{AuthError, verify_ownership}
use tailbus.Node.{Node, Draw, put_session, trace}
use tailbus.Node.Route.{RouteError, route}
use tailbus.Node.Sends.{
  SendRequest, owned, session_for, session_not_found, not_a_participant, session_is, compose,
  route_mentions, sent_ok, after_send, send_on, after_resolve, resolve_on,
}
use tailbus.Node.Kept.{trace-sessions, get-put_session, route-Keeps}

-- A session after a resolve at the given time.
abbrev pub resolved_at : ℕ → Session → Session
resolved_at now s = record (next_sequence s now).1 { state = state_resolved; updated_at = now }

-- Every session stands under its own ID.
abbrev pub IsFiled : Node → Type 0
IsFiled n = (id : String) (s : Session) → get id n.sessions ≡ some s → s.id ≡ id

-- The checks find the session, and find it open.
pub session_for-found :
    (conn : Option ℕ) (req : SendRequest) (n : Node) (sess : Session)
    → session_for conn req n ≡ ok sess
    → (get req.session_id n.sessions ≡ some sess) × (is_open sess.state ≡ true)
session_for-found conn req n sess h =
    checked (verify_ownership conn req.from_handle n.agents) (get req.session_id n.sessions) h
  where
    checked :
        (r : Result AuthError (Unit {0})) (o : Option Session)
        → (owned r
            >> (from_option o (session_not_found req.session_id) >>= λ sess.
                guard (involves sess req.from_handle) (not_a_participant req.from_handle sess.id)
                >> (guard (is_open sess.state) (session_is sess.id sess.state) >> ok sess)))
          ≡ ok sess
        → (o ≡ some sess) × (is_open sess.state ≡ true)
    checked (err e) o h = ground (arith, h)
    checked (ok u) none h = ground (arith, h)
    checked (ok u) (some s) h = ground (arith, h)

pub Result-cases :
    {E A : Type 0} (r : Result E A) → ((e : E) × (r ≡ err e)) ⊎ ((a : A) × (r ≡ ok a))
Result-cases (ok a) = inr (a, refl)
Result-cases (err e) = inl (e, refl)

pub mentions-sessions :
    (from to content_type payload : String) (n : Node)
    → (route_mentions from to content_type payload n).sessions ≡ n.sessions
unfolding route_mentions
mentions-sessions from to content_type payload n = ground arith

pub after_send-sessions :
    (env : Envelope) (r : Result RouteError (Unit {0})) (n : Node)
    → (after_send env (r, n)).1.sessions ≡ n.sessions
after_send-sessions env (err e) n = refl
after_send-sessions env (ok u) n =
    mentions-sessions env.from_handle env.to_handle env.content_type env.payload _

-- What the end of a call that holds a copy leaves of a session: the session as it was, or, if it is that
-- of the copy, what the call has made of the copy.
abbrev pub Ended : ℕ → Session → String → Session → Store → Type 0
Ended now copy id s st =
    (get id st ≡ some s)
    ⊎ ((copy.id ≡ id)
        × ((get id st ≡ some (next_sequence copy now).1)
            ⊎ (get id st ≡ some (resolved_at now copy))))

pub send_on-Ended :
    (down : String → Bool) (x : Draw) (req : SendRequest) (copy : Session) (id : String)
    (s : Session) (n : Node)
    → get id n.sessions ≡ some s
    → Ended x.now copy id s (send_on down x req copy n).1.sessions
unfolding send_on next_sequence
send_on-Ended down x req copy id s n h =
    let (seq, copy') = next_sequence copy x.now in
    let env = compose message x req seq copy' in
    let put = trace message_created env (put_session copy' n) in
    let at : get id put.sessions ≡ (if copy.id == id then some copy' else some s) =
      ap (get id) (trace-sessions message_created env (put_session copy' n))
      ∙ get-put_session id copy' n
      ∙ rw h refl in
    let r = route down x env put in
    elim (Bool-cases (copy.id == id)) [
      | inl e ↦ inr (
        (eq_iff copy.id id).0 e,
        inl (
            ap (get id) (after_send-sessions env r.0 r.1)
            ∙ route-Keeps down x env put id copy' (at ∙ rw e refl)),
      )
      | inr e ↦ inl (
          ap (get id) (after_send-sessions env r.0 r.1)
          ∙ route-Keeps down x env put id s (at ∙ rw e refl))
    ]

after_resolve-sessions :
    (x : Draw) (sess : Session) (env : Envelope) (r : Result RouteError (Unit {0})) (n : Node)
    (id : String)
    → (get id (after_resolve x sess env (r, n)).1.sessions ≡ get id n.sessions)
      ⊎ (get id (after_resolve x sess env (r, n)).1.sessions ≡ (
          if sess.id == id
          then some (record sess { state = state_resolved; updated_at = x.now })
          else get id n.sessions))
unfolding resolve
after_resolve-sessions x sess env (err e) n id = inl refl
after_resolve-sessions x sess env (ok u) n id = elim (Bool-cases (is_open sess.state)) [
  | inr o ↦ inl (
      rw o (
        ap (get id)
          (mentions-sessions env.from_handle env.to_handle env.content_type env.payload _)))
  | inl o ↦ inr (
      rw o (
        get-put_session id (record sess { state = state_resolved; updated_at = x.now })
          (sent_ok env n)
        ∙ ap
            (λ st.
              if sess.id == id
              then some (record sess { state = state_resolved; updated_at = x.now })
              else get id st)
            (mentions-sessions env.from_handle env.to_handle env.content_type env.payload _)))
]

pub resolve_on-Ended :
    (down : String → Bool) (x : Draw) (req : SendRequest) (copy : Session) (id : String)
    (s : Session) (n : Node)
    → get id n.sessions ≡ some s
    → Ended x.now copy id s (resolve_on down x req copy n).1.sessions
unfolding resolve_on next_sequence
resolve_on-Ended down x req copy id s n h =
    let (seq, copy') = next_sequence copy x.now in
    let env = compose session_resolve x req seq copy' in
    let put = trace message_created env n in
    let r = route down x env put in
    let kept : get id r.1.sessions ≡ some s =
      route-Keeps down x env put id s (ap (get id) (trace-sessions message_created env n) ∙ h) in
    elim (after_resolve-sessions x copy' env r.0 r.1 id) [
      | inl same ↦ inl (same ∙ kept)
      | inr put_back ↦ elim (Bool-cases (copy.id == id)) [
        | inl e ↦ inr ((eq_iff copy.id id).0 e, inr (put_back ∙ rw e refl))
        | inr e ↦ inl (put_back ∙ rw e kept)
      ]
    ]
