-- ===== src/Rooms/Cache/Tests.antt =====
-- Runs of the cache of rooms (internal/daemon/roommanager.go).
use tailbus.Base.{ℕ, String, false, [], ◌∷◌}
use tailbus.Resolver.{PeerInfo, new_resolver}
use tailbus.Rooms.{RoomInfo, RoomEvent, message_posted}
use tailbus.Rooms.Manager.{RoomManager}

abbrev bob : PeerInfo
bob = record {
  node_id = "n2";
  public_key = "k2";
  advertise_addr = "n2:9443";
  manifest = record {
    description = "";
    commands = [];
    tags = [];
    version = "";
    capabilities = [];
    domains = [];
    input_types = [];
    output_types = [];
  };
}

abbrev known_room : RoomInfo
known_room = record {
  room_id = "r1";
  title = "incident";
  created_by = "ann";
  home_node_id = "n1";
  members = "ann" ∷ [];
  status = "closed";
  next_seq = 9;
  created_at_unix = 10;
  updated_at_unix = 10;
}

-- An event of bob's, with the members of that time.
abbrev event : ℕ → String → RoomEvent
event seq room_id = record {
  event_id = "e";
  room_id = room_id;
  room_seq = seq;
  sender_handle = "bob";
  subject_handle = "";
  payload = "hi";
  content_type = "text/plain";
  sent_at_unix = 10;
  type = message_posted;
  trace_id = "";
  members = "ann" ∷ "bob" ∷ [];
}

abbrev manager : RoomManager
manager = record {
  node_id = "n3";
  resolver = record new_resolver { handle_to = ("bob", bob) ∷ [] };
  deliverer = λ e. false;
  store = record { rooms = ("r1", known_room) ∷ []; room_logs = [] };
  retention = 100;
  has_coord = false;
  upserts = [];
  activity = [];
  outbox = [];
}
