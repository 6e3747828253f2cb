-- ===== src/Activity.antt =====
-- internal/daemon/activitybus.go: the events of a daemon for its dashboards, and its counters. An int64
-- is its two's complement, a natural number below 2 ^ 64; a channel is a number with what it holds. The
-- recorder of usage is a list. Times are left out.
pub mod Counted
pub mod Received
mod Tests
use tailbus.Base.{
  ℕ, String, Bool, true, false, not, Option, none, some, List, [], ◌∷◌, ◌++◌, ltb, eqb, length,
  keep, inc_u64, if◌then◌else◌,
}

pub data ActivityEvent : Type 0 where
  message_routed :
      (session_id from to : String) → Bool → (trace_id message_id : String) → ActivityEvent
  session_opened : (session_id from to : String) → ActivityEvent
  session_resolved : (session_id from : String) → ActivityEvent
  handle_registered : String → ActivityEvent
  room_created : (room_id title created_by : String) → List String → ActivityEvent
  room_message_posted :
      (room_id : String)
      → ℕ
      → (from : String) → List String
      → (trace_id content_type content_kind target_handle turn_id status : String) → ℕ
      → ActivityEvent
  room_member_joined : (room_id handle : String) → List String → ActivityEvent
  room_member_left : (room_id handle : String) → List String → ActivityEvent
  room_closed : (room_id closed_by : String) → List String → ActivityEvent

-- The metrics that the bus records.
pub data UsageMetric : Type 0 where
  metric_messages_routed metric_sessions_opened metric_rooms_created metric_room_messages_posted :
      UsageMetric

pub record Counters : Type 0 where
  pub messages_routed : ℕ
  pub messages_delivered_local : ℕ
  pub messages_sent_remote : ℕ
  pub messages_received_remote : ℕ
  pub sessions_opened : ℕ
  pub sessions_resolved : ℕ
  pub rooms_created : ℕ
  pub room_messages_posted : ℕ
  pub room_members_joined : ℕ
  pub room_members_left : ℕ
  pub rooms_closed : ℕ

pub record Sub : Type 0 where
  pub id : ℕ
  pub queue : List ActivityEvent

pub record ActivityBus : Type 0 where
  pub subs : List Sub
  pub has_usage : Bool
  pub recorded : List UsageMetric
  pub counters : Counters

abbrev pub zero_counters : Counters
zero_counters = record {
  messages_routed = 0;
  messages_delivered_local = 0;
  messages_sent_remote = 0;
  messages_received_remote = 0;
  sessions_opened = 0;
  sessions_resolved = 0;
  rooms_created = 0;
  room_messages_posted = 0;
  room_members_joined = 0;
  room_members_left = 0;
  rooms_closed = 0;
}

abbrev pub new_activity_bus : ActivityBus
new_activity_bus = record { subs = []; has_usage = false; recorded = []; counters = zero_counters }

abbrev pub sub_capacity : ℕ
sub_capacity = 64

abbrev pub subscribe : ℕ → ActivityBus → ActivityBus
subscribe id b = record b { subs = b.subs ++ record { id = id; queue = [] } ∷ [] }

abbrev pub unsubscribe : ℕ → ActivityBus → ActivityBus
unsubscribe id b = record b { subs = keep (λ (s : Sub). not (eqb s.id id)) b.subs }

-- A full channel drops the event.
abbrev pub offer : ActivityEvent → List ActivityEvent → List ActivityEvent
offer event queue = if ltb (length queue) sub_capacity then queue ++ event ∷ [] else queue

abbrev pub offer_all : ActivityEvent → List Sub → List Sub
offer_all event [] = []
offer_all event (s ∷ ss) = record s { queue = offer event s.queue } ∷ offer_all event ss

abbrev pub emit : ActivityEvent → ActivityBus → ActivityBus
emit event b = record b { subs = offer_all event b.subs }

abbrev pub record_usage : Option UsageMetric → ActivityBus → ActivityBus
record_usage none b = b
record_usage (some metric) b =
    if b.has_usage then record b { recorded = b.recorded ++ metric ∷ [] } else b

abbrev pub metric_of : ActivityEvent → Option UsageMetric
metric_of (message_routed s f t remote tr m) = some metric_messages_routed
metric_of (session_opened s f t) = some metric_sessions_opened
metric_of (room_created r t c ms) = some metric_rooms_created
metric_of (room_message_posted r q f ms tr ct ck th ti st rd) = some metric_room_messages_posted
metric_of _ = none

abbrev pub count_routed : Bool → Counters → Counters
count_routed true c = record c {
  messages_routed = inc_u64 c.messages_routed;
  messages_sent_remote = inc_u64 c.messages_sent_remote;
}
count_routed false c = record c {
  messages_routed = inc_u64 c.messages_routed;
  messages_delivered_local = inc_u64 c.messages_delivered_local;
}

abbrev pub count : ActivityEvent → Counters → Counters
count (message_routed s f t remote tr m) c = count_routed remote c
count (session_opened s f t) c = record c { sessions_opened = inc_u64 c.sessions_opened }
count (session_resolved s f) c = record c { sessions_resolved = inc_u64 c.sessions_resolved }
count (handle_registered h) c = c
count (room_created r t cb ms) c = record c { rooms_created = inc_u64 c.rooms_created }
count (room_message_posted r q f ms tr ct ck th ti st rd) c = record c {
  room_messages_posted = inc_u64 c.room_messages_posted;
}
count (room_member_joined r h ms) c = record c {
  room_members_joined = inc_u64 c.room_members_joined;
}
count (room_member_left r h ms) c = record c { room_members_left = inc_u64 c.room_members_left }
count (room_closed r cb ms) c = record c { rooms_closed = inc_u64 c.rooms_closed }

-- The helpers that emit typed events, of which each counts first.
unfoldable pub emit_typed : ActivityEvent → ActivityBus → ActivityBus
emit_typed event b =
    emit event (record_usage (metric_of event) (record b { counters = count event b.counters }))

-- What the daemon counts for each envelope that the transport brings.
abbrev pub received_remote : ActivityBus → ActivityBus
received_remote b = record b {
  counters = record b.counters {
    messages_received_remote = inc_u64 b.counters.messages_received_remote;
  };
}

-- The oldest event of a channel is read.
abbrev pub read_one : ℕ → List Sub → List Sub
read_one id [] = []
read_one id (s ∷ ss) =
    if eqb s.id id
    then record s { queue = elim s.queue [ [] ↦ [] | e ∷ es ↦ es ] } ∷ ss
    else s ∷ read_one id ss

pub data Op : Type 0 where
  subscribes unsubscribes reads : ℕ → Op
  emits : ActivityEvent → Op
  receives_remote : Op

unfoldable pub step : Op → ActivityBus → ActivityBus
step (subscribes id) b = subscribe id b
step (unsubscribes id) b = unsubscribe id b
step (reads id) b = record b { subs = read_one id b.subs }
step (emits event) b = emit_typed event b
step receives_remote b = received_remote b

unfoldable pub run : List Op → ActivityBus → ActivityBus
run [] b = b
run (op ∷ ops) b = run ops (step op b)

abbrev pub emitted : List Op → List ActivityEvent
emitted [] = []
emitted (emits event ∷ ops) = event ∷ emitted ops
emitted (_ ∷ ops) = emitted ops
