-- ===== src/Agents/Deliver.antt =====
-- internal/daemon/agentserver.go: the delivery of a message to the channels of a handle.
-- A send to a closed channel stops the process.
use tailbus.Base.{
  ℕ, ◌+◌, String, Bool, true, false, ◌==◌, ◌||◌, not, none, some, List, [], ◌∷◌, ◌++◌, ltb, length,
  if◌then◌else◌, Dict, lookup, insert,
}
use tailbus.Rooms.{RoomEvent}
use tailbus.Agents.{
  Incoming, room_event, Channel, HandleStats, AgentServer, update, subs, has_handle,
}

pub data Sent : Type 0 where
  queued full panic : Sent

abbrev pub channel_capacity : ℕ
channel_capacity = 64

abbrev pub send_on : Channel → Sent
send_on c =
    if c.closed then panic else if ltb (length c.queue) channel_capacity then queued else full

abbrev pub count_sent : Sent → HandleStats → HandleStats
count_sent queued hs = record hs { msgs_in = hs.msgs_in + 1 }
count_sent full hs = record hs { drops = hs.drops + 1 }
count_sent panic hs = hs

abbrev pub bump : String → Sent → Dict HandleStats → Dict HandleStats
bump handle sent stats = elim (lookup handle stats) [
  | none ↦ stats
  | some hs ↦ insert handle (count_sent sent hs) stats
]

-- The non-blocking send of one message, with the statistics of the handle.
abbrev pub record_send : Sent → Incoming → String → ℕ → AgentServer → AgentServer
record_send queued msg handle ch s = record s {
  channels =
      update ch (record (s.channels ch) { queue = (s.channels ch).queue ++ msg ∷ [] }) s.channels;
  hstats = bump handle queued s.hstats;
}
record_send full msg handle ch s = record s { hstats = bump handle full s.hstats }
record_send panic msg handle ch s = record s { panicked = true }

abbrev pub was_queued : Sent → Bool
was_queued queued = true
was_queued _ = false

-- The loop over a snapshot of the channels: whether one of them took the message.
unfoldable pub send_all : Incoming → String → List ℕ → AgentServer → Bool × AgentServer
send_all msg handle [] s = (false, s)
send_all msg handle (ch ∷ chs) s =
    let sent = send_on (s.channels ch) in
    let (taken, s') = send_all msg handle chs (record_send sent msg handle ch s) in
    (was_queued sent || taken, s')

-- DeliverRoomEventLocal
unfoldable pub deliver_event : RoomEvent → List String → AgentServer → Bool × AgentServer
deliver_event event [] s = (false, s)
deliver_event event (m ∷ ms) s =
    let skipped = deliver_event event ms s in
    let (taken, s₁) = send_all (room_event event) m (subs m s) s in
    let (others, s₂) = deliver_event event ms s₁ in
    if m == event.sender_handle || not (has_handle m s) then skipped else (taken || others, s₂)

unfoldable pub deliver_room_event_local : RoomEvent → AgentServer → Bool × AgentServer
deliver_room_event_local event s = deliver_event event event.members s
