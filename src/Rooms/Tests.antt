-- ===== src/Rooms/Tests.antt =====
-- Runs of the room manager (internal/daemon/roommanager.go).
use tailbus.Base.{ℕ, ◌≡◌, refl, String, true, List, [], ◌∷◌, ◌++◌, arith, err, contains, lookup}
use tailbus.Resolver.{PeerInfo, ServiceManifest}
use tailbus.Rooms.{RoomInfo, RoomEvent, message_posted, RoomCommand, post, close, not_a_member}
use tailbus.Rooms.Log.{RoomStore, load_room, room_log}
use tailbus.Rooms.Manager.{Entropy, RoomManager, Outbound}
use tailbus.Rooms.Publish.{publish_event}
use tailbus.Rooms.Publish.Reach.{Reach, publish_event-Reach}
use tailbus.Rooms.Commands.{execute_command}
use tailbus.Rooms.Invariant.{IsGood, execute_command-IsGood}
use tailbus.Rooms.Access.{outsider_refused, no_faults}
use tailbus.Rooms.Moves.{KeptOrMoved, execute_command-KeptOrMoved}

abbrev no_manifest : ServiceManifest
no_manifest = record {
  description = "";
  commands = [];
  tags = [];
  version = "";
  capabilities = [];
  domains = [];
  input_types = [];
  output_types = [];
}

abbrev peer : String → String → PeerInfo
peer node addr = record {
  node_id = node;
  public_key = "k";
  advertise_addr = addr;
  manifest = no_manifest;
}

abbrev room : String → RoomInfo
room status = record {
  room_id = "r1";
  title = "incident";
  created_by = "ann";
  home_node_id = "n1";
  members = "ann" ∷ "bob" ∷ "cid" ∷ "dee" ∷ [];
  status = status;
  next_seq = 2;
  created_at_unix = 10;
  updated_at_unix = 10;
}

abbrev event : ℕ → RoomEvent
event n = record {
  event_id = "e";
  room_id = "r1";
  room_seq = n;
  sender_handle = "ann";
  subject_handle = "";
  payload = "hi";
  content_type = "text/plain";
  sent_at_unix = 10;
  type = message_posted;
  trace_id = "";
  members = "ann" ∷ "bob" ∷ "cid" ∷ "dee" ∷ [];
}

abbrev store : String → RoomStore
store status = record {
  rooms = ("r1", room status) ∷ [];
  room_logs = ("r1", (1, event 1) ∷ []) ∷ [];
}

-- ann and bob are on this node, cid and dee on another one.
abbrev manager : String → RoomManager
manager status = record {
  node_id = "n1";
  resolver = record {
    handle_to =
        ("ann", peer "n1" "a1")
        ∷ ("bob", peer "n1" "a1")
        ∷ ("cid", peer "n2" "a2")
        ∷ ("dee", peer "n2" "a2")
        ∷ [];
    nodes = [];
    relays = [];
    rooms = [];
  };
  deliverer = λ _. true;
  store = store status;
  retention = 2;
  has_coord = true;
  upserts = [];
  activity = [];
  outbox = [];
}

abbrev chance : Entropy
chance = record { uuid = "u"; now = 20 }

abbrev command : String → RoomCommand
command handle = record {
  request_id = "q";
  type = post;
  room_id = "r1";
  requester_handle = handle;
  subject_handle = "";
  payload = "yo";
  content_type = "text/plain";
  trace_id = "";
  since_seq = 0;
  requester_node_id = "n1";
}

store-IsGood : (status : String) → IsGood "r1" (store status)
unfolding load_room lookup room_log contains
store-IsGood status r found = ground (arith, found)

execute_command-IsGood_example :
    IsGood "r1"
      (execute_command chance no_faults (room "open") (command "bob") (manager "open")).1.store
unfolding load_room lookup
execute_command-IsGood_example =
    execute_command-IsGood "r1" chance no_faults (room "open") (manager "open") (command "bob")
      (store-IsGood "open") refl (omega arith)

execute_command-KeptOrMoved_example :
    KeptOrMoved "r1" close "bob"
      (room "open")
      (execute_command chance no_faults
        (room "open")
        (record (command "bob") { type = close })
        (manager "open")).1.store
unfolding load_room lookup
execute_command-KeptOrMoved_example =
    execute_command-KeptOrMoved "r1" chance no_faults (room "open") (manager "open")
      (record (command "bob") { type = close }) refl refl

outsider_refused_example :
    execute_command chance no_faults (room "open") (command "eve") (manager "open")
    ≡ (err (not_a_member "eve"), manager "open")
unfolding contains
outsider_refused_example =
    outsider_refused chance no_faults (room "open") (manager "open") (command "eve") refl (λ e. cc)

publish_event-Reach_example :
    (out : List Outbound) × ((publish_event (manager "open") (event 2)).outbox ≡ [] ++ out)
    × Reach (manager "open") (event 2) out
publish_event-Reach_example = publish_event-Reach (manager "open") (event 2)
