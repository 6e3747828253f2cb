-- ===== src/Agents/Tests.antt =====
-- Runs of the agent server (internal/daemon/agentserver.go).
use tailbus.Base.{◌≡◌, refl, String, true, none, some, List, [], ◌∷◌, lookup, insert}
use tailbus.Rooms.{RoomEvent, member_joined}
use tailbus.Agents.{
  AgentServer, RegisterRequest, new_agent_server, register, subscribe, verify_ownership,
  disconnect_conn, subs, room_event,
}
use tailbus.Agents.Deliver.{send_all}
use tailbus.Agents.Ownership.{IsOwned, Op, registers, subscribes, step, step-IsOwned}
use tailbus.Agents.Takeover.{step-owner, disconnect_releases}
use tailbus.Agents.Crash.{late_send_panics}

abbrev request : String → RegisterRequest
request h = record { handle = h; manifest = none; description = "" }

abbrev joined : RoomEvent
joined = record {
  event_id = "e1";
  room_id = "r1";
  room_seq = 1;
  sender_handle = "bob";
  subject_handle = "bob";
  payload = "";
  content_type = "text/plain";
  trace_id = "";
  type = member_joined;
  sent_at_unix = 5;
  members = "ann" ∷ "bob" ∷ [];
}

abbrev started : List Op
started = registers (some 1) (request "ann") ∷ subscribes (some 1) "ann" ∷ []

new-IsOwned : IsOwned new_agent_server
unfolding lookup
new-IsOwned = record { owner_of = λ c h e. cc; handles_of = λ c h e. cc; registered = λ c h e. cc }

-- Connection 1 has the handle "ann" and a subscription to it.
abbrev server : AgentServer
server =
    step (subscribes (some 1) "ann") (step (registers (some 1) (request "ann")) new_agent_server)

server-IsOwned : IsOwned server
server-IsOwned =
    step-IsOwned (subscribes (some 1) "ann") _
      (step-IsOwned (registers (some 1) (request "ann")) new_agent_server new-IsOwned)

step-owner_example :
    lookup "ann" (step (registers (some 2) (request "ann")) server).handle_owner ≡ some 1
unfolding step register subscribe verify_ownership lookup insert
step-owner_example =
    step-owner (registers (some 2) (request "ann")) server 1 "ann" server-IsOwned refl (λ e. cc)

disconnect_releases_example :
    (lookup "ann" (disconnect_conn 1 server).handle_owner ≡ none)
    × (lookup "ann" (disconnect_conn 1 server).handles ≡ none)
    × (lookup "ann" (disconnect_conn 1 server).manifests ≡ none)
    × (lookup "ann" (disconnect_conn 1 server).subscribers ≡ none)
unfolding step register subscribe verify_ownership lookup insert
disconnect_releases_example = disconnect_releases 1 "ann" server server-IsOwned

late_send_panics_example :
    (send_all (room_event joined) "ann" (subs "ann" server) (disconnect_conn 1 server)).1.panicked
    ≡ true
unfolding step register subscribe verify_ownership lookup insert
late_send_panics_example =
    late_send_panics (room_event joined) 1 "ann" 0 server server-IsOwned refl refl
