-- ===== src/Node/Route.antt =====
-- internal/daemon/router.go, Route, and internal/daemon/agentserver.go, DeliverToLocal.
use tailbus.Base.{
  ℕ, String, Bool, true, false, ◌==◌, ◌&&◌, not, Option, none, some, List, [], ◌∷◌, ◌++◌, Result,
  ok, err, if◌then◌else◌,
}
use tailbus.Envelope.{Envelope, EnvelopeType, session_open, ack, is_ack}
use tailbus.Session.{Session, state_open}
use tailbus.Session.Store.{get}
use tailbus.Trace.{delivered_to_subscriber, routed_local, routed_remote}
use tailbus.Resolver.{PeerInfo, NotFound, resolve}
use tailbus.Acks.{acknowledge, track, unix}
use tailbus.Agents.{envelope, subs, has_handle}
use tailbus.Agents.Deliver.{send_all}
use tailbus.Node.{Node, Draw, route_ack, message_routed, put_session, trace, emit, spawn}

abbrev pub opens_session : EnvelopeType → Bool
opens_session session_open = true
opens_session _ = false

abbrev pub missing : Option Session → Bool
missing none = true
missing (some _) = false

-- The local session of one that a remote node has opened.
abbrev pub adopted : Draw → Envelope → Session
adopted x env = record {
  id = env.session_id;
  from_handle = env.from_handle;
  to_handle = env.to_handle;
  state = state_open;
  trace_id = env.trace_id;
  next_seq = 1;
  created_at = x.now;
  updated_at = x.now;
}

unfoldable pub adopt : Draw → Envelope → Node → Node
adopt x env n =
    if opens_session env.type
      && not (env.session_id == "")
      && missing (get env.session_id n.sessions)
    then put_session (adopted x env) n
    else n

abbrev pub ack_for : Draw → Envelope → Envelope
ack_for x env = record {
  message_id = x.ack_id;
  session_id = env.session_id;
  from_handle = env.to_handle;
  to_handle = env.from_handle;
  payload = "";
  content_type = "";
  sent_at_unix = unix x.now;
  type = ack;
  trace_id = "";
  sequence = 0;
  ack_id = env.message_id;
}

abbrev pub spawn_ack : Draw → Envelope → Node → Node
spawn_ack x env n = if env.from_handle == "" then n else spawn (route_ack (ack_for x env) ∷ []) n

-- To the channels of the handle, if it has any.
unfoldable pub hand_over : Draw → Envelope → List ℕ → Node → Bool × Node
hand_over x env [] n = (false, n)
hand_over x env (ch ∷ chs) n =
    let served = record n {
      agents = (send_all (envelope env) env.to_handle (ch ∷ chs) n.agents).1;
    } in
    (true, spawn_ack x env (trace delivered_to_subscriber env served))

abbrev pub settle : Envelope → Node → Node
settle env n =
    if env.ack_id == "" then n else record n { tracker = (acknowledge env.ack_id n.tracker).1 }

-- Whether the envelope was delivered.
unfoldable pub deliver_to_local : Draw → Envelope → Node → Bool × Node
deliver_to_local x env n =
    if is_ack env.type
    then (true, settle env n)
    else hand_over x env (subs env.to_handle n.agents) (adopt x env n)

unfoldable pub record_route_done : Envelope → Bool → Node → Node
record_route_done env remote n =
    let shown = if is_ack env.type then n else emit (message_routed env remote) n in
    trace (if remote then routed_remote else routed_local) env shown

pub data RouteError : Type 0 where
  no_subscribers : String → RouteError
  unresolved : NotFound → RouteError
  send_failed : String → RouteError

abbrev pub finish_local : Envelope → Bool × Node → Result RouteError (Unit {0}) × Node
finish_local env (true, n) = (ok tt, record_route_done env false n)
finish_local env (false, n) = (err (no_subscribers env.to_handle), n)

abbrev pub track_sent : Draw → Envelope → String → Node → Node
track_sent x env addr n =
    if is_ack env.type then n else record n { tracker = track env addr x.now x.now n.tracker }

-- `down` says to which addresses the transport cannot send.
abbrev pub send_to :
    (String → Bool)
    → Draw
    → Envelope
    → Result NotFound PeerInfo
    → Node
    → Result RouteError (Unit {0}) × Node
send_to down x env (err e) n = (err (unresolved e), n)
send_to down x env (ok peer) n =
    let addr = peer.advertise_addr in
    let sent = record n { outbox = n.outbox ++ (addr, env) ∷ [] } in
    if down addr
    then (err (send_failed addr), n)
    else (ok tt, record_route_done env true (track_sent x env addr sent))

unfoldable pub route :
    (String → Bool) → Draw → Envelope → Node → Result RouteError (Unit {0}) × Node
route down x env n =
    if has_handle env.to_handle n.agents
    then finish_local env (deliver_to_local x env n)
    else send_to down x env (resolve env.to_handle n.resolver) n
