-- ===== src/Node/Sends.antt =====
-- internal/daemon/agentserver.go: OpenSession, SendMessage, ResolveSession, and the goroutines that
-- they start.
use text.Mathlib.Text.{starts_with}
use tailbus.Base.{
  ℕ, ◌+◌, String, Bool, ◌==◌, Option, none, some, [], ◌∷◌, Result, ok, err, ◌>>=◌, ◌>>◌, guard,
  from_option, if◌then◌else◌, map, lookup, insert,
}
use tailbus.Envelope.{Envelope, EnvelopeType, session_open, message, session_resolve}
use tailbus.Session.{Session, State, is_open, new, next_sequence, NotOpen, not_open, involves}
use tailbus.Session.{resolve}
use tailbus.Session.Store.{get}
use tailbus.Trace.{message_created}
use tailbus.Acks.{unix}
use tailbus.Agents.{AgentServer, HandleStats, AuthError, verify_ownership}
use tailbus.Node.{
  Node, Draw, Task, route_ack, open_mention, session_opened, session_resolved, put_session, trace,
  emit, spawn,
}
use tailbus.Node.Mentions.{extract_mentions}
use tailbus.Node.Route.{RouteError, route}

pub data SendError : Type 0 where
  refused : AuthError → SendError
  session_not_found : String → SendError
  not_a_participant : String → String → SendError
  session_is : String → State → SendError
  route_failed : RouteError → SendError

-- SendMessageRequest and ResolveSessionRequest.
pub record SendRequest : Type 0 where
  pub session_id : String
  pub from_handle : String
  pub payload : String
  pub content_type : String

pub record OpenRequest : Type 0 where
  pub from_handle : String
  pub to_handle : String
  pub payload : String
  pub content_type : String
  pub trace_id : String

abbrev pub owned : Result AuthError (Unit {0}) → Result SendError (Unit {0})
owned (ok _) = ok tt
owned (err e) = err (refused e)

-- The checks of a send: a copy of the session, if the sender may use it.
abbrev pub session_for : Option ℕ → SendRequest → Node → Result SendError Session
session_for conn req n =
    owned (verify_ownership conn req.from_handle n.agents)
    >> (from_option (get req.session_id n.sessions) (session_not_found req.session_id) >>= λ sess.
        guard (involves sess req.from_handle) (not_a_participant req.from_handle sess.id)
        >> (guard (is_open sess.state) (session_is sess.id sess.state) >> ok sess))

abbrev pub other_end : String → Session → String
other_end from sess = if from == sess.to_handle then sess.from_handle else sess.to_handle

-- The envelope of a send, from the session after its number was drawn.
abbrev pub compose : EnvelopeType → Draw → SendRequest → ℕ → Session → Envelope
compose type x req seq sess = record {
  message_id = x.message_id;
  session_id = req.session_id;
  from_handle = req.from_handle;
  to_handle = other_end req.from_handle sess;
  payload = req.payload;
  content_type = req.content_type;
  sent_at_unix = unix sess.updated_at;
  type = type;
  trace_id = sess.trace_id;
  sequence = seq;
  ack_id = "";
}

abbrev count_one : Option HandleStats → String → AgentServer → AgentServer
count_one none h s = s
count_one (some hs) h s = record s {
  hstats = insert h (record hs { msgs_out = hs.msgs_out + 1 }) s.hstats;
}

abbrev pub count_out : String → Node → Node
count_out h n = record n { agents = count_one (lookup h n.agents.hstats) h n.agents }

-- maybeRouteMentions
unfoldable pub route_mentions : String → String → String → String → Node → Node
route_mentions from to content_type payload n =
    if starts_with content_type "text/"
    then spawn
        (map (λ m. open_mention from m payload content_type)
          (extract_mentions payload (from ∷ to ∷ [])))
        n
    else n

-- The end of a send that has been routed.
abbrev pub sent_ok : Envelope → Node → Node
sent_ok env n =
    route_mentions env.from_handle env.to_handle env.content_type env.payload
      (count_out env.from_handle n)

abbrev pub after_send :
    Envelope → Result RouteError (Unit {0}) × Node → Result SendError String × Node
after_send env (err e, n) = (err (route_failed e), n)
after_send env (ok _, n) = (ok env.message_id, sent_ok env n)

-- SendMessage from the copy of the session on.
unfoldable pub send_on :
    (String → Bool) → Draw → SendRequest → Session → Node → Result SendError String × Node
send_on down x req sess n =
    let (seq, sess') = next_sequence sess x.now in
    let env = compose message x req seq sess' in
    after_send env (route down x env (trace message_created env (put_session sess' n)))

abbrev pub with_session {ℓ} :
    {A : Type ℓ}
    → Result SendError Session
    → (Session → Node → Result SendError A × Node)
    → Node
    → Result SendError A × Node
with_session (err e) f n = (err e, n)
with_session (ok sess) f n = f sess n

unfoldable pub send_message :
    (String → Bool) → Draw → Option ℕ → SendRequest → Node → Result SendError String × Node
send_message down x conn req n = with_session (session_for conn req n) (send_on down x req) n

-- The session is put back once the final message has gone out.
abbrev pub put_resolved : Envelope → Result NotOpen Session → Node → Result SendError String × Node
put_resolved env (err (not_open s)) n = (err (session_is env.session_id s), n)
put_resolved env (ok sess) n =
    (ok env.message_id, emit (session_resolved env.session_id env.from_handle) (put_session sess n))

abbrev pub after_resolve :
    Draw → Session → Envelope → Result RouteError (Unit {0}) × Node → Result SendError String × Node
after_resolve x sess env (err e, n) = (err (route_failed e), n)
after_resolve x sess env (ok _, n) = put_resolved env (resolve sess x.now) (sent_ok env n)

unfoldable pub resolve_on :
    (String → Bool) → Draw → SendRequest → Session → Node → Result SendError String × Node
resolve_on down x req sess n =
    let (seq, sess') = next_sequence sess x.now in
    let env = compose session_resolve x req seq sess' in
    after_resolve x sess' env (route down x env (trace message_created env n))

unfoldable pub resolve_session :
    (String → Bool) → Draw → Option ℕ → SendRequest → Node → Result SendError String × Node
resolve_session down x conn req n = with_session (session_for conn req n) (resolve_on down x req) n

abbrev pub opening : Draw → String → OpenRequest → ℕ → Session → Envelope
opening x trace_id req seq sess = record {
  message_id = x.message_id;
  session_id = sess.id;
  from_handle = req.from_handle;
  to_handle = req.to_handle;
  payload = req.payload;
  content_type = req.content_type;
  sent_at_unix = unix sess.created_at;
  type = session_open;
  trace_id = trace_id;
  sequence = seq;
  ack_id = "";
}

abbrev pub after_open :
    Envelope → Result RouteError (Unit {0}) × Node → Result SendError String × Node
after_open env (err e, n) = (err (route_failed e), n)
after_open env (ok _, n) = (
  ok env.session_id,
  route_mentions env.from_handle env.to_handle env.content_type env.payload (
      emit (session_opened env.session_id env.from_handle env.to_handle)
        (count_out env.from_handle n)),
)

abbrev pub open_owned :
    (String → Bool)
    → Draw
    → OpenRequest
    → Result AuthError (Unit {0})
    → Node
    → Result SendError String × Node
open_owned down x req (err e) n = (err (refused e), n)
open_owned down x req (ok _) n =
    let trace_id = if req.trace_id == "" then x.trace_id else req.trace_id in
    let sess = record (new x.session_id req.from_handle req.to_handle x.now) {
      trace_id = trace_id;
    } in
    let (seq, sess') = next_sequence sess x.now in
    let env = opening x trace_id req seq sess' in
    after_open env (route down x env (trace message_created env (put_session sess' n)))

unfoldable pub open_session :
    (String → Bool) → Draw → Option ℕ → OpenRequest → Node → Result SendError String × Node
open_session down x conn req n =
    open_owned down x req (verify_ownership conn req.from_handle n.agents) n

-- openMentionSession, which draws no number.
abbrev pub after_mention : Envelope → Result RouteError (Unit {0}) × Node → Node
after_mention env (err e, n) = n
after_mention env (ok _, n) = emit (session_opened env.session_id env.from_handle env.to_handle) n

unfoldable pub open_mention_session :
    (String → Bool) → Draw → String → String → String → String → Node → Node
open_mention_session down x from mentioned payload content_type n =
    let req : OpenRequest = record {
      from_handle = from;
      to_handle = mentioned;
      payload = payload;
      content_type = content_type;
      trace_id = "";
    } in
    let sess = record (new x.session_id from mentioned x.now) { trace_id = x.trace_id } in
    let env = opening x x.trace_id req 0 sess in
    after_mention env (route down x env (put_session sess n))

unfoldable pub run_task : (String → Bool) → Draw → Task → Node → Node
run_task down x (route_ack env) n = (route down x env n).1
run_task down x (open_mention from mentioned payload content_type) n =
    open_mention_session down x from mentioned payload content_type n
