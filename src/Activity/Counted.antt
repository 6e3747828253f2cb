-- ===== src/Activity/Counted.antt =====
-- What the counters of the activity bus count (internal/daemon/activitybus.go).
use tailbus.Base.{
  ℕ, ◌+◌, ◌^◌, ◌%◌, ◌≡◌, refl, sym, ap, ◌∙◌, subst, Bool, true, false, Option, none, some, List, [],
  ◌∷◌, inc_u64, if◌then◌else◌, arith,
}
use tailbus.Activity.{
  ActivityEvent, message_routed, session_opened, session_resolved, handle_registered, room_created,
  room_message_posted, room_member_joined, room_member_left, room_closed, UsageMetric, Counters,
  ActivityBus, new_activity_bus, record_usage, metric_of, count, emit_typed, Op, subscribes,
  unsubscribes, reads, emits, receives_remote, step, run, emitted,
}

-- Whether an event is a message that was routed to a remote node, or to a local handle.
abbrev pub is_routed : Bool → ActivityEvent → Bool
is_routed remote (message_routed s f t true tr m) = remote
is_routed remote (message_routed s f t false tr m) = if remote then false else true
is_routed remote _ = false

abbrev pub tally : Bool → List ActivityEvent → ℕ
tally remote [] = 0
tally remote (e ∷ es) = if is_routed remote e then 1 + tally remote es else tally remote es

abbrev plus : Bool → ActivityEvent → ℕ → ℕ
plus remote event n = if is_routed remote event then 1 + n else n

-- The three counters of routed messages, modulo 2 ^ 64.
abbrev pub Balanced : Counters → ℕ → ℕ → Type 0
Balanced c l r =
    (c.messages_routed ≡ (l + r) % 2 ^ 64)
    × (c.messages_delivered_local ≡ l % 2 ^ 64)
    × (c.messages_sent_remote ≡ r % 2 ^ 64)

inc-mod : (a k : ℕ) → a ≡ k % 2 ^ 64 → inc_u64 a ≡ (1 + k) % 2 ^ 64
inc-mod a k e = omega (arith, e)

count-Balanced :
    (event : ActivityEvent) (c : Counters) (l r : ℕ)
    → Balanced c l r
    → Balanced (count event c) (plus false event l) (plus true event r)
count-Balanced (message_routed s f t true tr m) c l r h = (
  inc-mod c.messages_routed (l + r) h.0 ∙ ap (λ n. n % 2 ^ 64) (omega arith),
  h.1,
  inc-mod c.messages_sent_remote r h.2,
)
count-Balanced (message_routed s f t false tr m) c l r h = (
  inc-mod c.messages_routed (l + r) h.0 ∙ ap (λ n. n % 2 ^ 64) (omega arith),
  inc-mod c.messages_delivered_local l h.1,
  h.2,
)
count-Balanced (session_opened s f t) c l r h = h
count-Balanced (session_resolved s f) c l r h = h
count-Balanced (handle_registered x) c l r h = h
count-Balanced (room_created x t cb ms) c l r h = h
count-Balanced (room_message_posted x q f ms tr ct ck th ti st rd) c l r h = h
count-Balanced (room_member_joined x y ms) c l r h = h
count-Balanced (room_member_left x y ms) c l r h = h
count-Balanced (room_closed x cb ms) c l r h = h

emit_typed-counters :
    (event : ActivityEvent) (b : ActivityBus)
    → (emit_typed event b).counters ≡ count event b.counters
unfolding emit_typed
emit_typed-counters event b =
    usage (metric_of event) (record b { counters = count event b.counters })
  where
    usage : (m : Option UsageMetric) (b : ActivityBus) → (record_usage m b).counters ≡ b.counters
    usage none b = refl
    usage (some m) b = ground arith

moved : (b : Bool) (l t : ℕ) → (if b then 1 + l else l) + t ≡ l + (if b then 1 + t else t)
moved true l t = omega arith
moved false l t = refl

run-Balanced :
    (ops : List Op) (b : ActivityBus) (l r : ℕ)
    → Balanced b.counters l r
    → Balanced (run ops b).counters (l + tally false (emitted ops)) (r + tally true (emitted ops))
unfolding run step
run-Balanced [] b l r h =
    subst (λ n. Balanced b.counters n (r + 0)) (omega arith)
      (subst (λ n. Balanced b.counters l n) (omega arith) h)
run-Balanced (subscribes id ∷ ops) b l r h = run-Balanced ops (step (subscribes id) b) l r h
run-Balanced (unsubscribes id ∷ ops) b l r h = run-Balanced ops (step (unsubscribes id) b) l r h
run-Balanced (reads id ∷ ops) b l r h = run-Balanced ops (step (reads id) b) l r h
run-Balanced (receives_remote ∷ ops) b l r h = run-Balanced ops (step receives_remote b) l r h
run-Balanced (emits event ∷ ops) b l r h =
    let here =
      subst (λ (c : Counters). Balanced c (plus false event l) (plus true event r))
        (sym (emit_typed-counters event b)) (count-Balanced event b.counters l r h) in
    let after = (run ops (emit_typed event b)).counters in
    let rest =
      run-Balanced ops (emit_typed event b) (plus false event l) (plus true event r) here in
    let l' = l + tally false (emitted (emits event ∷ ops)) in
    subst (λ n. Balanced after l' n) (moved (is_routed true event) r (tally true (emitted ops)))
      (subst (λ n. Balanced after n (plus true event r + tally true (emitted ops)))
        (moved (is_routed false event) l (tally false (emitted ops))) rest)

zero_plus : (n : ℕ) → 0 + n ≡ n
zero_plus n = omega arith

-- After any course of the bus, the counters of remote and of local messages have counted the routed
-- messages of each kind, and the counter of routed messages is their sum, all modulo 2 ^ 64.
pub messages_counted :
    (ops : List Op)
    → Balanced
        (run ops new_activity_bus).counters
        (tally false (emitted ops))
        (tally true (emitted ops))
messages_counted ops =
    let after = (run ops new_activity_bus).counters in
    let remote = tally true (emitted ops) in
    subst (λ n. Balanced after (tally false (emitted ops)) n) (zero_plus remote)
      (subst (λ n. Balanced after n (0 + remote)) (zero_plus (tally false (emitted ops)))
        (run-Balanced ops new_activity_bus 0 0 (omega arith, omega arith, omega arith)))
