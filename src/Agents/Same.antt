-- ===== src/Agents/Same.antt =====
-- A delivery changes no name, owner or subscription (internal/daemon/agentserver.go).
use tailbus.Base.{ℕ, ◌≡◌, refl, ◌∙◌, String, ◌==◌, List, [], ◌∷◌, inl, inr, ◌||◌, Bool-cases, not}
use tailbus.Agents.{Incoming, room_event, AgentServer, has_handle, subs}
use tailbus.Rooms.{RoomEvent}
use tailbus.Agents.Deliver.{
  Sent, queued, full, panic, send_on, record_send, send_all, deliver_event,
}

-- What a delivery leaves alone.
pub record SameNames (s t : AgentServer) : Type 0 where
  pub same_handles : t.handles ≡ s.handles
  pub same_owner : t.handle_owner ≡ s.handle_owner
  pub same_conn : t.conn_handles ≡ s.conn_handles
  pub same_subscribers : t.subscribers ≡ s.subscribers
  pub same_next : t.next_channel ≡ s.next_channel

SameNames-trans : (s t u : AgentServer) → SameNames s t → SameNames t u → SameNames s u
SameNames-trans s t u a b = record {
  same_handles = b.same_handles ∙ a.same_handles;
  same_owner = b.same_owner ∙ a.same_owner;
  same_conn = b.same_conn ∙ a.same_conn;
  same_subscribers = b.same_subscribers ∙ a.same_subscribers;
  same_next = b.same_next ∙ a.same_next;
}

SameNames-refl : (s : AgentServer) → SameNames s s
SameNames-refl s = record {
  same_handles = refl;
  same_owner = refl;
  same_conn = refl;
  same_subscribers = refl;
  same_next = refl;
}

record_send-SameNames :
    (sent : Sent) (msg : Incoming) (h : String) (ch : ℕ) (s : AgentServer)
    → SameNames s (record_send sent msg h ch s)
record_send-SameNames queued msg h ch s = record {
  same_handles = refl;
  same_owner = refl;
  same_conn = refl;
  same_subscribers = refl;
  same_next = refl;
}
record_send-SameNames full msg h ch s = record {
  same_handles = refl;
  same_owner = refl;
  same_conn = refl;
  same_subscribers = refl;
  same_next = refl;
}
record_send-SameNames panic msg h ch s = record {
  same_handles = refl;
  same_owner = refl;
  same_conn = refl;
  same_subscribers = refl;
  same_next = refl;
}

pub send_all-SameNames :
    (msg : Incoming) (h : String) (chs : List ℕ) (s : AgentServer)
    → SameNames s (send_all msg h chs s).1
unfolding send_all
send_all-SameNames msg h [] s = SameNames-refl s
send_all-SameNames msg h (ch ∷ chs) s =
    let sent = send_on (s.channels ch) in
    SameNames-trans s (record_send sent msg h ch s) _ (record_send-SameNames sent msg h ch s)
      (send_all-SameNames msg h chs (record_send sent msg h ch s))

pub deliver_event-SameNames :
    (event : RoomEvent) (ms : List String) (s : AgentServer)
    → SameNames s (deliver_event event ms s).1
unfolding deliver_event
deliver_event-SameNames event [] s = SameNames-refl s
deliver_event-SameNames event (m ∷ ms) s =
    elim (Bool-cases ((m == event.sender_handle) || not (has_handle m s))) [
      | inl e ↦ rw (e, deliver_event) (deliver_event-SameNames event ms s)
      | inr e ↦
          rw (e, deliver_event)
            (SameNames-trans s (send_all (room_event event) m (subs m s) s).1 _
              (send_all-SameNames (room_event event) m (subs m s) s)
              (deliver_event-SameNames event ms (send_all (room_event event) m (subs m s) s).1))
    ]
