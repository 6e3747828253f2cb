-- ===== src/Activity/Received.antt =====
-- What a subscriber of the activity bus gets (internal/daemon/activitybus.go).
use mathlib.Core.List.{append-nil, append_assoc}
use tailbus.Base.{
  ℕ, zero, suc, ◌≡◌, ◌≢◌, refl, sym, ap, ◌∙◌, true, false, not, Option, none, some, List, [], ◌∷◌,
  ◌++◌, ltb, eqb, length, keep, take, if◌then◌else◌, arith, inl, inr, Bool-cases, eq_of_some,
  eqb_refl,
}
use tailbus.Activity.{
  ActivityEvent, UsageMetric, Sub, ActivityBus, sub_capacity, subscribe, offer, offer_all,
  record_usage, metric_of, count, emit_typed, read_one, Op, subscribes, unsubscribes, reads, emits,
  receives_remote, step, run, emitted,
}

-- What the channel of a subscriber holds, if there is one.
unfoldable pub queue_of : ℕ → List Sub → Option (List ActivityEvent)
queue_of id [] = none
queue_of id (s ∷ ss) = if eqb s.id id then some s.queue else queue_of id ss

-- The operation is not one of the subscriber's own.
abbrev pub Others : ℕ → Op → Type 0
Others id (subscribes other) = Unit {0}
Others id (unsubscribes other) = other ≢ id
Others id (reads other) = other ≢ id
Others id _ = Unit {0}

abbrev pub AllOthers : ℕ → List Op → Type 0
AllOthers id [] = Unit {0}
AllOthers id (op ∷ ops) = Others id op × AllOthers id ops

offer-take :
    (n : ℕ) (event : ActivityEvent) (xs : List ActivityEvent)
    → (if ltb (length (take n xs)) n then take n xs ++ event ∷ [] else take n xs)
      ≡ take n (xs ++ event ∷ [])
offer-take zero event xs = ground arith
offer-take (suc zero) event [] = ground arith
offer-take (suc (suc n)) event [] = ground arith
offer-take (suc n) event (x ∷ xs) = elim (Bool-cases (ltb (length (take n xs)) n)) [
  | inl room ↦
      let same : ltb (suc (length (take n xs))) (suc n) ≡ true = ground (arith, room) in
      rw same (
        ap (λ q. x ∷ q)
          (sym (ap (λ b. if b then take n xs ++ event ∷ [] else take n xs) room)
            ∙ offer-take n event xs))
  | inr full ↦
      let same : ltb (suc (length (take n xs))) (suc n) ≡ false = ground (arith, full) in
      rw same (
        ap (λ q. x ∷ q)
          (sym (ap (λ b. if b then take n xs ++ event ∷ [] else take n xs) full)
            ∙ offer-take n event xs))
]

queue_of-offer_all :
    (id : ℕ) (event : ActivityEvent) (ss : List Sub) (q : List ActivityEvent)
    → queue_of id ss ≡ some q
    → queue_of id (offer_all event ss) ≡ some (offer event q)
unfolding queue_of
queue_of-offer_all id event [] q e = cc
queue_of-offer_all id event (s ∷ ss) q e = elim (Bool-cases (eqb s.id id)) [
  | inl own ↦
      rw own (ap (λ (x : List ActivityEvent). some (offer event x)) (eq_of_some (rw own at e)))
  | inr other ↦ rw other (queue_of-offer_all id event ss q (rw other at e))
]

queue_of-append :
    (id : ℕ) (ss ts : List Sub) (q : List ActivityEvent)
    → queue_of id ss ≡ some q
    → queue_of id (ss ++ ts) ≡ some q
unfolding queue_of
queue_of-append id [] ts q e = cc
queue_of-append id (s ∷ ss) ts q e = ground (arith, e, queue_of-append id ss ts q)

queue_of-keep :
    (id other : ℕ) (ss : List Sub) (q : List ActivityEvent)
    → other ≢ id
    → queue_of id ss ≡ some q
    → queue_of id (keep (λ (s : Sub). not (eqb s.id other)) ss) ≡ some q
unfolding queue_of
queue_of-keep id other [] q n e = cc
queue_of-keep id other (s ∷ ss) q n e = ground (arith, n, e, queue_of-keep id other ss q n)

queue_of-read_one :
    (id other : ℕ) (ss : List Sub) (q : List ActivityEvent)
    → other ≢ id
    → queue_of id ss ≡ some q
    → queue_of id (read_one other ss) ≡ some q
unfolding queue_of
queue_of-read_one id other [] q n e = cc
queue_of-read_one id other (s ∷ ss) q n e = ground (arith, n, e, queue_of-read_one id other ss q n)

emit_typed-subs :
    (event : ActivityEvent) (b : ActivityBus) → (emit_typed event b).subs ≡ offer_all event b.subs
unfolding emit_typed
emit_typed-subs event b =
    ap (offer_all event) (usage (metric_of event) (record b { counters = count event b.counters }))
  where
    usage : (m : Option UsageMetric) (b : ActivityBus) → (record_usage m b).subs ≡ b.subs
    usage none b = refl
    usage (some m) b = ground arith

step-queue :
    (id : ℕ) (op : Op) (b : ActivityBus) (xs : List ActivityEvent)
    → Others id op
    → queue_of id b.subs ≡ some (take sub_capacity xs)
    → queue_of id (step op b).subs ≡ some (take sub_capacity (xs ++ emitted (op ∷ [])))
unfolding step
step-queue id (subscribes other) b xs others e =
    queue_of-append id b.subs (record { id = other; queue = [] } ∷ []) (take sub_capacity xs) e
    ∙ ap (λ q. some (take sub_capacity q)) (sym (append-nil xs))
step-queue id (unsubscribes other) b xs others e =
    queue_of-keep id other b.subs (take sub_capacity xs) others e
    ∙ ap (λ q. some (take sub_capacity q)) (sym (append-nil xs))
step-queue id (reads other) b xs others e =
    queue_of-read_one id other b.subs (take sub_capacity xs) others e
    ∙ ap (λ q. some (take sub_capacity q)) (sym (append-nil xs))
step-queue id (emits event) b xs others e =
    ap (queue_of id) (emit_typed-subs event b)
    ∙ queue_of-offer_all id event b.subs (take sub_capacity xs) e
    ∙ ap some (offer-take sub_capacity event xs)
step-queue id receives_remote b xs others e =
    e ∙ ap (λ q. some (take sub_capacity q)) (sym (append-nil xs))

emitted-cons : (op : Op) (ops : List Op) → emitted (op ∷ ops) ≡ emitted (op ∷ []) ++ emitted ops
emitted-cons (subscribes id) ops = refl
emitted-cons (unsubscribes id) ops = refl
emitted-cons (reads id) ops = refl
emitted-cons (emits event) ops = refl
emitted-cons receives_remote ops = refl

run-queue :
    (id : ℕ) (ops : List Op) (b : ActivityBus) (xs : List ActivityEvent)
    → AllOthers id ops
    → queue_of id b.subs ≡ some (take sub_capacity xs)
    → queue_of id (run ops b).subs ≡ some (take sub_capacity (xs ++ emitted ops))
unfolding run
run-queue id [] b xs others e = e ∙ ap (λ q. some (take sub_capacity q)) (sym (append-nil xs))
run-queue id (op ∷ ops) b xs others e =
    run-queue id ops (step op b) (xs ++ emitted (op ∷ [])) others.1
      (step-queue id op b xs others.0 e)
    ∙ ap (λ q. some (take sub_capacity q))
        (append_assoc xs (emitted (op ∷ [])) (emitted ops)
          ∙ ap (λ q. xs ++ q) (sym (emitted-cons op ops)))

queue_of-new :
    (id : ℕ) (ss : List Sub)
    → queue_of id ss ≡ none
    → queue_of id (ss ++ record { id = id; queue = [] } ∷ []) ≡ some []
unfolding queue_of
queue_of-new id [] e = rw (eqb_refl id) refl
queue_of-new id (s ∷ ss) e = ground (arith, e, queue_of-new id ss)

-- A subscriber that has not yet read holds the first events that were emitted since it subscribed, in
-- their order, up to the capacity of its channel, whatever other subscribers do. Later events are lost.
pub subscriber_gets :
    (id : ℕ) (ops : List Op) (b : ActivityBus)
    → queue_of id b.subs ≡ none
    → AllOthers id ops
    → queue_of id (run (subscribes id ∷ ops) b).subs ≡ some (take sub_capacity (emitted ops))
unfolding run step
subscriber_gets id ops b fresh others =
    run-queue id ops (subscribe id b) [] others (queue_of-new id b.subs fresh)
