-- ===== src/Rooms/Remote/Tests.antt =====
-- A node that joins a room of another node (internal/daemon/roommanager.go).
use tailbus.Base.{
  ◌≡◌, refl, String, true, false, Option, none, some, List, [], ◌∷◌, ok, lookup, str_ne,
}
use tailbus.Resolver.{NodeInfo, new_resolver}
use tailbus.Rooms.{RoomInfo, RoomCommand, RoomCommandResult, RoomError}
use tailbus.Rooms.Log.{RoomStore, load_room}
use tailbus.Rooms.Manager.{Entropy, RoomManager, node_addr, node_addr_in, resolve_room_info}
use tailbus.Rooms.Commands.{execute_command}
use tailbus.Rooms.Access.{no_faults}
use tailbus.Rooms.Remote.{
  Control, room_command, room_command_result, stamped, join_room, waiting, begin_control,
  end_control, handle_remote_command, handle_remote_command_result,
}
use tailbus.Rooms.Remote.RoundTrip.{remote_as_home}
use tailbus.Rooms.Remote.Results.{handle_results, first_result_answers}

abbrev nodes : List NodeInfo
nodes =
    record { node_id = "n1"; advertise_addr = "a1"; public_key = "k1" }
    ∷ record { node_id = "n2"; advertise_addr = "a2"; public_key = "k2" }
    ∷ []

abbrev room : RoomInfo
room = record {
  room_id = "r1";
  title = "incident";
  created_by = "ann";
  home_node_id = "n1";
  members = "ann" ∷ [];
  status = "open";
  next_seq = 2;
  created_at_unix = 10;
  updated_at_unix = 10;
}

abbrev manager : String → RoomStore → RoomManager
manager id store = record {
  node_id = id;
  resolver = record new_resolver { nodes = nodes };
  deliverer = λ e. true;
  store = store;
  retention = 100;
  has_coord = false;
  upserts = [];
  activity = [];
  outbox = [];
}

abbrev stored : RoomStore
stored = record { rooms = ("r1", room) ∷ []; room_logs = [] }

abbrev home : Control
home = record { rooms = manager "n1" stored; pending_resp = []; sent = [] }

-- The other node has a copy of the room.
abbrev guest : Control
guest = record { rooms = manager "n2" stored; pending_resp = []; sent = [] }

abbrev join : RoomCommand
join = join_room "q1" "r1" "bob" "n2"

abbrev x : Entropy
x = record { uuid = "e1"; now = 20 }

remote_as_home_example :
    let begun = begin_control x no_faults true join guest in
    let b' = handle_remote_command x no_faults true join home in
    let done = execute_command x no_faults room join home.rooms in
    (begun.0 ≡ waiting)
    × (begun.1.sent ≡ ("a1", room_command join) ∷ [])
    × (b'.rooms ≡ done.1)
    × (result : RoomCommandResult) × (b'.sent ≡ ("a2", room_command_result result) ∷ [])
    × (let ended = end_control false "q1" (handle_remote_command_result no_faults result begun.1) in
        (ended.0 ≡ some (stamped join done.0)) × (lookup "q1" ended.1.pending_resp ≡ none))
unfolding resolve_room_info load_room node_addr node_addr_in lookup
remote_as_home_example =
    remote_as_home x x no_faults no_faults no_faults join guest home room room "a1" "a2" refl
      (str_ne "n1" "n2" refl) refl refl (str_ne "n2" "" refl) (str_ne "n2" "n1" refl) refl

abbrev result : String → Option RoomError → RoomCommandResult
result id e = record {
  request_id = id;
  error = e;
  room = some (record room { title = "forged" });
  event = none;
  events = [];
  members = [];
}

abbrev begun : Control
begun = record guest { pending_resp = ("q1", none) ∷ [] }

-- Results for another call and two for this one.
first_result_answers_example :
    (end_control false "q1" (
      handle_results
        ((no_faults, result "q0" none)
          ∷ (no_faults, result "q1" none)
          ∷ (no_faults, result "q1" none)
          ∷ [])
        begun)).0
    ≡ some (ok (result "q1" none))
unfolding lookup
first_result_answers_example =
    first_result_answers "q1"
      ((no_faults, result "q0" none)
        ∷ (no_faults, result "q1" none)
        ∷ (no_faults, result "q1" none)
        ∷ [])
      begun refl
