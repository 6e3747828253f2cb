-- ===== src/Agents/Crash.antt =====
-- Whether a delivery can crash the process by a send on a closed channel
-- (internal/daemon/agentserver.go).
use tailbus.Base.{
  ℕ, ◌≡◌, refl, ◌∙◌, String, true, false, ◌==◌, eq_iff, ◌||◌, not, some, List, [], ◌∷◌, arith, inl,
  inr, Bool-cases, eqb, eqb_iff, lookup, ltb, length,
}
use tailbus.Rooms.{RoomEvent}
use tailbus.Agents.{
  Names, has, Incoming, room_event, AgentServer, new_agent_server, update, subs, has_handle,
  subscribe, drop_handle, drop_handles, notify, disconnect_conn, verify_ownership,
}
use tailbus.Agents.Deliver.{
  Sent, queued, full, panic, send_on, record_send, send_all, deliver_event,
  deliver_room_event_local, channel_capacity,
}
use tailbus.Agents.Same.{send_all-SameNames}
use tailbus.Agents.Ownership.{
  IsOwned, Op, registers, subscribes, unsubscribes, disconnects, gets_event, step, run,
}
use tailbus.Agents.Channels.{
  among, IsLive, disconnect-IsLive, register-IsLive, add_subscriber-IsLive, unsubscribe-IsLive,
  closed-close_all, subs-drop_handle,
}

closed-record_send :
    (sent : Sent) (msg : Incoming) (h : String) (ch i : ℕ) (s : AgentServer)
    → ((record_send sent msg h ch s).channels i).closed ≡ (s.channels i).closed
closed-record_send queued msg h ch i s = ground (arith, eqb_iff ch i)
closed-record_send full msg h ch i s = refl
closed-record_send panic msg h ch i s = refl

calm-record_send :
    (msg : Incoming) (h : String) (ch : ℕ) (s : AgentServer)
    → (s.channels ch).closed ≡ false
    → (record_send (send_on (s.channels ch)) msg h ch s).panicked ≡ s.panicked
calm-record_send msg h ch s e =
    elim (Bool-cases (ltb (length (s.channels ch).queue) channel_capacity)) [
      | inl l ↦ rw (e, l) refl
      | inr l ↦ rw (e, l) refl
    ]

closed-send_all :
    (msg : Incoming) (h : String) (chs : List ℕ) (i : ℕ) (s : AgentServer)
    → ((send_all msg h chs s).1.channels i).closed ≡ (s.channels i).closed
unfolding send_all
closed-send_all msg h [] i s = refl
closed-send_all msg h (ch ∷ chs) i s =
    let sent = send_on (s.channels ch) in
    closed-send_all msg h chs i (record_send sent msg h ch s) ∙ closed-record_send sent msg h ch i s

calm-send_all :
    (msg : Incoming) (h : String) (chs : List ℕ) (s : AgentServer)
    → ((i : ℕ) → among i chs ≡ true → (s.channels i).closed ≡ false)
    → (send_all msg h chs s).1.panicked ≡ s.panicked
unfolding send_all
calm-send_all msg h [] s open_all = refl
calm-send_all msg h (ch ∷ chs) s open_all =
    let sent = send_on (s.channels ch) in
    calm-send_all msg h chs (record_send sent msg h ch s)
      (λ i e. closed-record_send sent msg h ch i s ∙ open_all i (ground (arith, e)))
    ∙ calm-record_send msg h ch s (open_all ch (ground (arith, eqb_iff ch ch)))

send_all-IsLive :
    (msg : Incoming) (h : String) (s : AgentServer)
    → IsLive s
    → IsLive (send_all msg h (subs h s) s).1
send_all-IsLive msg h s w =
    let e = send_all-SameNames msg h (subs h s) s in
    record {
      made = λ k i. rw (e.same_subscribers, e.same_next) (w.made k i);
      alone = λ k l i. rw e.same_subscribers (w.alone k l i);
      opened = λ k i. rw (e.same_subscribers, closed-send_all msg h (subs h s) i s) (w.opened k i);
      calm = calm-send_all msg h (subs h s) s (λ i. w.opened h i) ∙ w.calm;
    }

deliver_event-IsLive :
    (event : RoomEvent) (ms : List String) (s : AgentServer)
    → IsLive s
    → IsLive (deliver_event event ms s).1
unfolding deliver_event
deliver_event-IsLive event [] s w = w
deliver_event-IsLive event (m ∷ ms) s w =
    elim (Bool-cases ((m == event.sender_handle) || not (has_handle m s))) [
      | inl e ↦ rw (e, deliver_event) (deliver_event-IsLive event ms s w)
      | inr e ↦
          rw (e, deliver_event)
            (deliver_event-IsLive event ms (send_all (room_event event) m (subs m s) s).1
              (send_all-IsLive (room_event event) m s w))
    ]

step-IsLive : (op : Op) (s : AgentServer) → IsLive s → IsLive (step op s)
unfolding step subscribe deliver_room_event_local
step-IsLive (registers conn req) s w = register-IsLive conn req s w
step-IsLive (subscribes conn h) s w = add_subscriber-IsLive (verify_ownership conn h s) h s w
step-IsLive (unsubscribes h ch) s w = unsubscribe-IsLive h ch s w
step-IsLive (disconnects c) s w = disconnect-IsLive c s w
step-IsLive (gets_event event) s w = deliver_event-IsLive event event.members s w

run-IsLive : (ops : List Op) (s : AgentServer) → IsLive s → IsLive (run ops s)
unfolding run
run-IsLive [] s w = w
run-IsLive (op ∷ ops) s w = run-IsLive ops (step op s) (step-IsLive op s w)

new-IsLive : IsLive new_agent_server
unfolding lookup
new-IsLive = record { made = λ h i e. cc; alone = λ h k i e. cc; opened = λ h i e. cc; calm = refl }

-- Whatever events a new server gets, no delivery that reads and serves its list of channels at once
-- sends on a closed channel.
pub run_calm : (ops : List Op) → (run ops new_agent_server).panicked ≡ false
run_calm ops = (run-IsLive ops new_agent_server new-IsLive).calm

-- Closed stays closed, and a crash stays a crash.
stays-drop_handles :
    (hs : Names) (i : ℕ) (s : AgentServer)
    → (s.channels i).closed ≡ true
    → ((drop_handles hs s).channels i).closed ≡ true
unfolding drop_handles drop_handle
stays-drop_handles [] i s e = e
stays-drop_handles ((h, u) ∷ hs) i s e =
    stays-drop_handles hs i (drop_handle h s)
      (ground (arith, closed-close_all (subs h s) s.channels i, e))

closed-drop_handles :
    (hs : Names) (h : String) (i : ℕ) (s : AgentServer)
    → has h hs ≡ true
    → among i (subs h s) ≡ true
    → ((drop_handles hs s).channels i).closed ≡ true
unfolding drop_handles drop_handle lookup
closed-drop_handles [] h i s m e = cc
closed-drop_handles ((k, u) ∷ hs) h i s m e = elim (Bool-cases (k == h)) [
  | inl same ↦
      stays-drop_handles hs i (drop_handle k s)
        (ground (arith, closed-close_all (subs k s) s.channels i, eq_iff k h, same, e))
  | inr other ↦
      closed-drop_handles hs h i (drop_handle k s) (ground (arith, m, other))
        (ground (arith, subs-drop_handle k h i s, other, e))
]

stays-send_all :
    (msg : Incoming) (h : String) (chs : List ℕ) (s : AgentServer)
    → s.panicked ≡ true
    → (send_all msg h chs s).1.panicked ≡ true
unfolding send_all
stays-send_all msg h [] s e = e
stays-send_all msg h (ch ∷ chs) s e =
    let sent = send_on (s.channels ch) in
    stays-send_all msg h chs (record_send sent msg h ch s) (kept sent)
  where
    kept : (sent : Sent) → (record_send sent msg h ch s).panicked ≡ true
    kept queued = e
    kept full = e
    kept panic = refl

send_all_panics :
    (msg : Incoming) (h : String) (chs : List ℕ) (i : ℕ) (s : AgentServer)
    → among i chs ≡ true
    → (s.channels i).closed ≡ true
    → (send_all msg h chs s).1.panicked ≡ true
unfolding send_all
send_all_panics msg h [] i s m e = cc
send_all_panics msg h (ch ∷ chs) i s m e = elim (Bool-cases (eqb ch i)) [
  | inl same ↦ stays-send_all msg h chs (record_send (send_on (s.channels ch)) msg h ch s) (
      let shut : (s.channels ch).closed ≡ true = ground (arith, eqb_iff ch i, same, e) in
      rw shut refl)
  | inr other ↦
      send_all_panics msg h chs i (record_send (send_on (s.channels ch)) msg h ch s)
        (ground (arith, m, other)) (closed-record_send (send_on (s.channels ch)) msg h ch i s ∙ e)
]

-- A delivery lets go of the lock between the reading of the list and the sends. When the owner's
-- connection ends in between, and the handle had a subscriber, the sends crash the process.
pub late_send_panics :
    (msg : Incoming) (c : ℕ) (h : String) (i : ℕ) (s : AgentServer)
    → IsOwned s
    → lookup h s.handle_owner ≡ some c
    → among i (subs h s) ≡ true
    → (send_all msg h (subs h s) (disconnect_conn c s)).1.panicked ≡ true
unfolding disconnect_conn
late_send_panics msg c h i s w o m =
    let dropped =
      drop_handles (s.conn_handles c) (record s { conn_handles = update c [] s.conn_handles }) in
    send_all_panics msg h (subs h s) i (disconnect_conn c s) m (
      closed-notify (s.conn_handles c) i dropped
      ∙ closed-drop_handles (s.conn_handles c) h i
          (record s { conn_handles = update c [] s.conn_handles }) (w.handles_of c h o) m)
  where
    closed-notify :
        (hs : Names) (i : ℕ) (t : AgentServer)
        → ((notify hs t).channels i).closed ≡ (t.channels i).closed
    closed-notify [] i t = refl
    closed-notify (_ ∷ _) i t = refl
