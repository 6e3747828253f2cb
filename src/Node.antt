-- ===== src/Node.antt =====
-- One daemon: the agent server with the sessions (internal/daemon/agentserver.go), and the router
-- (internal/daemon/router.go). A goroutine is a task, appended to `spawned` and run later; what goes
-- to the transport is appended to `outbox`, and an activity event to `activity`. All the optional
-- parts (ACK tracker, trace store, activity bus) are set, as internal/daemon/daemon.go sets them.
pub mod Route
pub mod Mentions
pub mod Sends
pub mod Kept
pub mod Sessions
pub mod History
pub mod Filed
pub mod Resolved
pub mod Tracked
mod Tests
use tailbus.Base.{ℕ, String, Bool, true, false, ◌==◌, List, [], ◌∷◌, ◌++◌, if◌then◌else◌}
use tailbus.Envelope.{Envelope}
use tailbus.Session.{Session}
use tailbus.Session.Store.{Store, Call, put}
use tailbus.Trace.{TraceAction, TraceStore, record_span}
use tailbus.Resolver.{Resolver}
use tailbus.Acks.{AckTracker}
use tailbus.Agents.{AgentServer}

pub data Task : Type 0 where
  route_ack : Envelope → Task
  open_mention : String → String → String → String → Task

pub data Event : Type 0 where
  session_opened : String → String → String → Event
  session_resolved : String → String → Event
  message_routed : Envelope → Bool → Event

pub record Node : Type 0 where
  pub node_id : String
  pub agents : AgentServer
  pub sessions : Store
  pub persisted : List Call
  pub tracker : AckTracker
  pub resolver : Resolver
  pub traces : TraceStore
  pub outbox : List (String × Envelope)
  pub activity : List Event
  pub spawned : List Task

-- What a call draws: identifiers, and the time, in nanoseconds, which it reads once.
pub record Draw : Type 0 where
  pub session_id : String
  pub message_id : String
  pub trace_id : String
  pub ack_id : String
  pub now : ℕ

-- s.sessions.Put, with its persistence callback.
unfoldable pub put_session : Session → Node → Node
put_session sess n =
    let (st, calls) = put sess n.sessions in
    record n { sessions = st; persisted = n.persisted ++ calls }

-- A span of an envelope, if it has a trace.
unfoldable pub trace : TraceAction → Envelope → Node → Node
trace action env n = if env.trace_id == "" then n else record n {
  traces =
      record_span
        (record {
          trace_id = env.trace_id;
          message_id = env.message_id;
          node_id = n.node_id;
          action = action;
        })
        n.traces;
}

abbrev pub emit : Event → Node → Node
emit event n = record n { activity = n.activity ++ event ∷ [] }

abbrev pub spawn : List Task → Node → Node
spawn tasks n = record n { spawned = n.spawned ++ tasks }
