-- ===== src/Rooms/Remote/RoundTrip.antt =====
-- A command sent to the home of a room, and its result sent back (internal/daemon/roommanager.go).
use tailbus.Base.{
  ◌≡◌, ◌≢◌, refl, ap, ◌∙◌, String, true, false, ◌==◌, none, some, [], ◌∷◌, ◌++◌, Result, ok, err,
  lookup, insert, delete, str_eq_ne, lookup-insert_self, lookup-delete_self,
}
use tailbus.Rooms.{RoomInfo, RoomCommand, RoomCommandResult, RoomError}
use tailbus.Rooms.Manager.{Entropy, Faults, RoomManager, node_addr, node_addr_in, resolve_room_info}
use tailbus.Rooms.Commands.{Reply, execute_command}
use tailbus.Rooms.Remote.{
  Control, room_command, room_command_result, stamped, answer_of, waiting, begin_control,
  end_control, cache_result, handle_remote_command_result, send_result, error_result, replied,
  handle_remote_command,
}
use tailbus.Rooms.Remote.Kept.{SamePlace, Kept, execute_command-Kept}

node_addr-place :
    (rm rm' : RoomManager) (id : String) → SamePlace rm rm' → node_addr rm' id ≡ node_addr rm id
unfolding node_addr
node_addr-place rm rm' id same = ap (λ r. node_addr_in id r.nodes) same.1

module _ (faults : Faults) (cmd : RoomCommand) (s : Control) (addr : String) where
  send_result-away :
      (result : RoomCommandResult) (rm : RoomManager)
      → SamePlace s.rooms rm
      → cmd.requester_node_id ≢ ""
      → cmd.requester_node_id ≢ s.rooms.node_id
      → node_addr s.rooms cmd.requester_node_id ≡ ok addr
      → send_result faults true cmd result (record s { rooms = rm })
        ≡ record s { rooms = rm; sent = s.sent ++ (addr, room_command_result result) ∷ [] }
  unfolding send_result
  send_result-away result rm same named away known =
      rw
        (
          str_eq_ne cmd.requester_node_id "" named,
          ap (λ n. cmd.requester_node_id == n) same.0
              ∙ str_eq_ne cmd.requester_node_id s.rooms.node_id away,
          node_addr-place s.rooms rm cmd.requester_node_id same ∙ known,
        )
        refl

  -- The message that goes back says what the command has come to.
  replied-away :
      (r : Reply RoomCommandResult)
      → Kept s.rooms r
      → cmd.requester_node_id ≢ ""
      → cmd.requester_node_id ≢ s.rooms.node_id
      → node_addr s.rooms cmd.requester_node_id ≡ ok addr
      → (result : RoomCommandResult) × (replied faults true cmd s r
          ≡ record s { rooms = r.1; sent = s.sent ++ (addr, room_command_result result) ∷ [] })
        × (result.request_id ≡ cmd.request_id)
        × (answer_of result result.error ≡ stamped cmd r.0)
  replied-away (ok result, rm) kept named away known =
      let stamp = record result { request_id = cmd.request_id } in
      (
        stamp,
        send_result-away stamp rm kept.place named away known,
        refl,
        ap (answer_of stamp) (kept.clean result refl),
      )
  replied-away (err e, rm) kept named away known = (
    error_result cmd e,
    send_result-away (error_result cmd e) rm kept.place named away known,
    refl,
    refl,
  )

begin_away :
    (x : Entropy) (faults : Faults) (cmd : RoomCommand) (a : Control) (known : RoomInfo)
    (home : String)
    → resolve_room_info faults a.rooms cmd.room_id ≡ ok known
    → known.home_node_id ≢ a.rooms.node_id
    → node_addr a.rooms known.home_node_id ≡ ok home
    → begin_control x faults true cmd a ≡ (
      waiting,
      record a {
        pending_resp = insert cmd.request_id none a.pending_resp;
        sent = a.sent ++ (home, room_command cmd) ∷ [];
      },
    )
unfolding begin_control
begin_away x faults cmd a known home seen away routed =
    rw (seen, str_eq_ne known.home_node_id a.rooms.node_id away, routed) refl

handle_known :
    (y : Entropy) (faults : Faults) (cmd : RoomCommand) (b : Control) (own : RoomInfo)
    → resolve_room_info faults b.rooms cmd.room_id ≡ ok own
    → handle_remote_command y faults true cmd b
      ≡ replied faults true cmd b (execute_command y faults own cmd b.rooms)
unfolding handle_remote_command
handle_known y faults cmd b own found = rw found refl

pub handle_result-offered :
    (faults : Faults) (result : RoomCommandResult) (s : Control)
    → lookup result.request_id s.pending_resp ≡ some none
    → handle_remote_command_result faults result s ≡ record s {
      rooms = cache_result faults result.room s.rooms;
      pending_resp = insert result.request_id (some result) s.pending_resp;
    }
unfolding handle_remote_command_result
handle_result-offered faults result s waits = rw waits refl

pub end_control-taken :
    (id : String) (result : RoomCommandResult) (s : Control)
    → lookup id s.pending_resp ≡ some (some result)
    → end_control false id s
      ≡ (some (answer_of result result.error), record s { pending_resp = delete id s.pending_resp })
unfolding end_control
end_control-taken id result s full = rw full refl

-- The end of a call whose channel was empty when its result came.
end-handled :
    (faults : Faults) (result : RoomCommandResult) (id : String) (s : Control)
    (r : Result RoomError RoomCommandResult) (cmd : RoomCommand)
    → result.request_id ≡ id
    → answer_of result result.error ≡ stamped cmd r
    → lookup id s.pending_resp ≡ some none
    → let ended = end_control false id (handle_remote_command_result faults result s) in
      (ended.0 ≡ some (stamped cmd r)) × (lookup id ended.1.pending_resp ≡ none)
end-handled faults result id s r cmd same says waits =
    let offer =
      handle_result-offered faults result s (ap (λ i. lookup i s.pending_resp) same ∙ waits) in
    let full =
      ap (λ i. lookup id (insert i (some result) s.pending_resp)) same
      ∙ lookup-insert_self id (some result) s.pending_resp in
    let taken =
      end_control-taken id result (handle_remote_command_result faults result s)
        (ap (λ (c : Control). lookup id c.pending_resp) offer ∙ full) in
    (
      ap (λ r. r.0) taken ∙ ap some says,
      ap (λ r. lookup id r.1.pending_resp) taken
          ∙ lookup-delete_self id (handle_remote_command_result faults result s).pending_resp,
    )

-- A command begun at a node that is not the home of the room goes to the home's address. If the home is
-- given it, knows the room and the address of the node, it executes the command on its own copy, and
-- sends one result back. Once the node is given that result, and before its deadline, the call returns
-- what the execution at the home has returned, be it an error, and waits no more.
pub remote_as_home :
    (x y : Entropy) (fa fb fc : Faults) (cmd : RoomCommand) (a b : Control) (known own : RoomInfo)
    (home asker : String)
    → resolve_room_info fa a.rooms cmd.room_id ≡ ok known
    → known.home_node_id ≢ a.rooms.node_id
    → node_addr a.rooms known.home_node_id ≡ ok home
    → resolve_room_info fb b.rooms cmd.room_id ≡ ok own
    → cmd.requester_node_id ≢ ""
    → cmd.requester_node_id ≢ b.rooms.node_id
    → node_addr b.rooms cmd.requester_node_id ≡ ok asker
    → let begun = begin_control x fa true cmd a in
      let b' = handle_remote_command y fb true cmd b in
      let done = execute_command y fb own cmd b.rooms in
      (begun.0 ≡ waiting)
      × (begun.1.sent ≡ a.sent ++ (home, room_command cmd) ∷ [])
      × (b'.rooms ≡ done.1)
      × (result : RoomCommandResult) × (b'.sent
          ≡ b.sent ++ (asker, room_command_result result) ∷ [])
      × (let ended =
            end_control false cmd.request_id (handle_remote_command_result fc result begun.1) in
          (ended.0 ≡ some (stamped cmd done.0))
          × (lookup cmd.request_id ended.1.pending_resp ≡ none))
remote_as_home x y fa fb fc cmd a b known own home asker seen away routed found named other back =
    let done = execute_command y fb own cmd b.rooms in
    let (result, replies, same, says) =
      replied-away fb cmd b asker done (execute_command-Kept y fb b.rooms own cmd) named other
        back in
    let begun = begin_away x fa cmd a known home seen away routed in
    let handled = handle_known y fb cmd b own found ∙ replies in
    (
      ap (λ r. r.0) begun,
      ap (λ r. r.1.sent) begun,
      ap (λ (c : Control). c.rooms) handled,
      result,
      ap (λ (c : Control). c.sent) handled,
      end-handled fc result cmd.request_id (begin_control x fa true cmd a).1 (done.0) cmd same says
          (ap (λ r. lookup cmd.request_id r.1.pending_resp) begun
            ∙ lookup-insert_self cmd.request_id none a.pending_resp),
    )
