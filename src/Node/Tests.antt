-- ===== src/Node/Tests.antt =====
-- Runs of a daemon (internal/daemon/agentserver.go, internal/daemon/router.go).
use tailbus.Base.{
  List, ◌≡◌, refl, String, Bool, true, false, none, some, [], ◌∷◌, contains, Distinct,
}
use tailbus.Envelope.{Envelope, message}
use tailbus.Session.{Session, State, state_open, state_resolved, is_open}
use tailbus.Session.Store.{get}
use tailbus.Trace.{new_trace_store}
use tailbus.Resolver.{PeerInfo, ServiceManifest, new_resolver}
use tailbus.Acks.{new_ack_tracker}
use tailbus.Agents.{new_agent_server}
use tailbus.Node.{Node, Draw}
use tailbus.Node.Mentions.{extract_mentions, find_all, name_prefix, fresh_names}
use tailbus.Node.Mentions.Exact.{Mentions, extract_mentions-exact}
use tailbus.Node.Route.{route}
use tailbus.Node.Sends.{SendRequest, send_on}
use tailbus.Node.History.{
  Daemon, sending, Step, begins_send, begins_resolve, goes_on, evicts, late_send_reopens,
}
use tailbus.Node.Tracked.{Accounted, route-Accounted}

abbrev no_manifest : ServiceManifest
no_manifest = record {
  description = "";
  commands = [];
  tags = [];
  version = "";
  capabilities = [];
  domains = [];
  input_types = [];
  output_types = [];
}

abbrev bob : PeerInfo
bob = record {
  node_id = "n2";
  public_key = "k2";
  advertise_addr = "n2:9443";
  manifest = no_manifest;
}

abbrev session : State → Session
session state = record {
  id = "s1";
  from_handle = "ann";
  to_handle = "bob";
  state = state;
  trace_id = "t1";
  next_seq = 4;
  created_at = 1;
  updated_at = 2;
}

-- A node with one session from "ann" to "bob", who is at another node.
abbrev node : State → Node
node state = record {
  node_id = "n1";
  agents = new_agent_server;
  sessions = record { sessions = ("s1", session state) ∷ []; persistence = true };
  persisted = [];
  tracker = new_ack_tracker;
  resolver = record new_resolver { handle_to = ("bob", bob) ∷ [] };
  traces = new_trace_store 8;
  outbox = [];
  activity = [];
  spawned = [];
}

abbrev draw : Draw
draw = record { session_id = "s9"; message_id = "m9"; trace_id = "t9"; ack_id = "a9"; now = 50 }

abbrev request : SendRequest
request = record {
  session_id = "s1";
  from_handle = "ann";
  payload = "ask @cy and @bob, @cy";
  content_type = "text/plain";
}

abbrev all_up : String → Bool
all_up addr = false

-- A send is under way, whose copy the session no longer is.
abbrev daemon : State → Daemon
daemon state = record { node = node state; calls = sending request (session state_open) ∷ [] }

-- The daemon holds the session as resolved; the copy is from before.
late_send_reopens_example :
    (s : Session) × (get "s1"
        (send_on all_up draw request (session state_open) (node state_resolved)).1.sessions
      ≡ some s)
    × (is_open s.state ≡ true)
late_send_reopens_example =
    late_send_reopens all_up draw request (session state_open) (node state_resolved) refl

abbrev hello : Envelope
hello = record {
  message_id = "m1";
  session_id = "s1";
  from_handle = "ann";
  to_handle = "bob";
  payload = "hello";
  content_type = "text/plain";
  sent_at_unix = 7;
  type = message;
  trace_id = "t1";
  sequence = 1;
  ack_id = "";
}

route-Accounted_example :
    Accounted draw hello (node state_open) (route all_up draw hello (node state_open)).1
route-Accounted_example = route-Accounted all_up draw hello (node state_open)

mentions_found : extract_mentions "ask @cy and @bob, @cy" ("ann" ∷ "bob" ∷ []) ≡ "cy" ∷ []
unfolding extract_mentions find_all name_prefix fresh_names contains
mentions_found = refl

extract_mentions-exact_example :
    Distinct (extract_mentions "ask @cy and @bob, @cy" ("ann" ∷ "bob" ∷ []))
    × ((h : String)
        → ((contains (extract_mentions "ask @cy and @bob, @cy" ("ann" ∷ "bob" ∷ [])) h ≡ true)
            → Mentions h "ask @cy and @bob, @cy" × (contains ("ann" ∷ "bob" ∷ []) h ≡ false))
          × (Mentions h "ask @cy and @bob, @cy"
              → contains ("ann" ∷ "bob" ∷ []) h ≡ false
              → contains (extract_mentions "ask @cy and @bob, @cy" ("ann" ∷ "bob" ∷ [])) h ≡ true))
extract_mentions-exact_example = extract_mentions-exact "ask @cy and @bob, @cy" ("ann" ∷ "bob" ∷ [])

-- A send and a resolve of the resolved session, both refused, a call that is not there, and an eviction
-- that comes too early.
abbrev steps : List (Draw × Step)
steps =
    (draw, begins_send none request)
    ∷ (draw, begins_resolve none request)
    ∷ (draw, goes_on 0)
    ∷ (draw, evicts 100)
    ∷ []
