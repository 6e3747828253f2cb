-- ===== src/Rooms/Remote/Kept.antt =====
-- A command leaves the node and the maps of its manager, and its results name no error
-- (internal/daemon/roommanager.go).
use tailbus.Base.{
  ◌≡◌, refl, sym, ap, ◌∙◌, String, Bool, true, false, not, ◌==◌, ◌&&◌, none, ok, err, if◌then◌else◌,
  arith, inl, inr, Bool-cases, eq_of_ok,
}
use tailbus.Rooms.{
  RoomInfo, RoomEvent, RoomEventType, RoomCommand, RoomCommandType, unspecified, create, join,
  leave, post, replay, list_members, close, RoomCommandResult, RoomError, room_is, not_a_member,
  store_failed,
}
use tailbus.Rooms.Manager.{Entropy, Faults, RoomManager, next_event, is_room_member}
use tailbus.Rooms.Publish.{publish_event}
use tailbus.Rooms.Commands.{
  Reply, published, persist_and_publish, record_membership_event, join_local, leave_local,
  post_local, replay_local, close_local, list_members_local, execute_command, dispatch,
}

abbrev pub SamePlace : RoomManager → RoomManager → Type 0
SamePlace rm rm' = (rm'.node_id ≡ rm.node_id) × (rm'.resolver ≡ rm.resolver)

-- A result has no error, and the manager stays where it is.
pub record Kept (rm : RoomManager) (r : Reply RoomCommandResult) : Type 0 where
  pub clean : (result : RoomCommandResult) → r.0 ≡ ok result → result.error ≡ none
  pub place : SamePlace rm r.1

Kept-err : (rm rm' : RoomManager) (e : RoomError) → SamePlace rm rm' → Kept rm (err e, rm')
Kept-err rm rm' e same = record { clean = λ result f. cc; place = same }

Kept-ok :
    (rm rm' : RoomManager) (result : RoomCommandResult)
    → result.error ≡ none
    → SamePlace rm rm'
    → Kept rm (ok result, rm')
Kept-ok rm rm' result e same = record {
  clean = λ other f. ap (λ (x : RoomCommandResult). x.error) (sym (eq_of_ok f)) ∙ e;
  place = same;
}

persist-SamePlace :
    (faults : Faults) (room : RoomInfo) (event : RoomEvent) (rm : RoomManager)
    → SamePlace rm (persist_and_publish faults room event rm).1
unfolding persist_and_publish publish_event
persist-SamePlace faults room event rm = elim (Bool-cases faults.store_room) [
  | inl e ↦ rw e (refl, refl)
  | inr e ↦ elim (Bool-cases faults.store_event) [
    | inl f ↦ rw (e, f) (refl, refl)
    | inr f ↦ elim (Bool-cases (rm.has_coord && faults.upsert_room)) [
      | inl g ↦ rw (e, f, g) (refl, refl)
      | inr g ↦ rw (e, f, g) (ground arith, ground arith)
    ]
  ]
]

published-Kept :
    (rm : RoomManager) (r : Reply (Unit {0})) (result : RoomCommandResult)
    → result.error ≡ none
    → SamePlace rm r.1
    → Kept rm (published r result)
published-Kept rm (ok x, rm') result e same = Kept-ok rm rm' result e same
published-Kept rm (err x, rm') result e same = Kept-err rm rm' x same

module _ (x : Entropy) (faults : Faults) (rm : RoomManager) where
  refused-Kept :
      (b : Bool) (e : RoomError) (r : Reply RoomCommandResult)
      → Kept rm r
      → Kept rm (if b then (err e, rm) else r)
  refused-Kept true e r k = Kept-err rm rm e (refl, refl)
  refused-Kept false e r k = k

  done-Kept :
      (b : Bool) (result : RoomCommandResult) (r : Reply RoomCommandResult)
      → result.error ≡ none
      → Kept rm r
      → Kept rm (if b then (ok result, rm) else r)
  done-Kept true result r e k = Kept-ok rm rm result e (refl, refl)
  done-Kept false result r e k = k

  written-Kept :
      (room : RoomInfo) (event : RoomEvent) (result : RoomCommandResult)
      → result.error ≡ none
      → Kept rm (published (persist_and_publish faults room event rm) result)
  written-Kept room event result e =
      published-Kept rm (persist_and_publish faults room event rm) result e
        (persist-SamePlace faults room event rm)

  read-Kept : (result : RoomCommandResult) → result.error ≡ none → Kept rm (ok result, rm)
  read-Kept result e = Kept-ok rm rm result e (refl, refl)

  membership-Kept :
      (room : RoomInfo) (type : RoomEventType) (subject : String)
      → Kept rm (record_membership_event x faults room type subject rm)
  unfolding record_membership_event next_event
  membership-Kept room type subject = written-Kept _ _ _ refl

  dispatch-Kept :
      (type : RoomCommandType) (room : RoomInfo) (cmd : RoomCommand)
      → Kept rm (dispatch type x faults room cmd rm)
  unfolding join_local leave_local post_local replay_local list_members_local close_local next_event
  dispatch-Kept join room cmd = refused-Kept _ _ _ (done-Kept _ _ _ refl (membership-Kept _ _ _))
  dispatch-Kept leave room cmd = refused-Kept _ _ _ (membership-Kept _ _ _)
  dispatch-Kept post room cmd = refused-Kept (not (room.status == "open")) (room_is room.status) _ (
      refused-Kept (not (is_room_member room cmd.requester_handle))
        (not_a_member cmd.requester_handle) _ (written-Kept _ _ _ refl))
  dispatch-Kept replay room cmd =
      refused-Kept _ _ _ (refused-Kept faults.read_events store_failed _ (read-Kept _ refl))
  dispatch-Kept list_members room cmd = refused-Kept _ _ _ (read-Kept _ refl)
  dispatch-Kept close room cmd = refused-Kept _ _ _ (written-Kept _ _ _ refl)
  dispatch-Kept unspecified room cmd = Kept-err rm rm _ (refl, refl)
  dispatch-Kept create room cmd = Kept-err rm rm _ (refl, refl)

  pub execute_command-Kept :
      (room : RoomInfo) (cmd : RoomCommand) → Kept rm (execute_command x faults room cmd rm)
  unfolding execute_command
  execute_command-Kept room cmd = dispatch-Kept cmd.type room cmd
