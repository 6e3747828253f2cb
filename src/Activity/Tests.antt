-- ===== src/Activity/Tests.antt =====
-- Courses of the activity bus (internal/daemon/activitybus.go).
use tailbus.Base.{◌≡◌, refl, true, false, some, List, [], ◌∷◌, arith}
use tailbus.Activity.{
  message_routed, handle_registered, new_activity_bus, Op, subscribes, unsubscribes, reads, emits,
  run,
}
use tailbus.Activity.Received.{queue_of, subscriber_gets}
use tailbus.Activity.Counted.{Balanced, messages_counted}

abbrev ops : List Op
ops =
    emits (message_routed "s1" "ann" "bob" true "t1" "m1")
    ∷ subscribes 2
    ∷ emits (handle_registered "cid")
    ∷ reads 2
    ∷ unsubscribes 2
    ∷ emits (message_routed "s1" "bob" "ann" false "t1" "m2")
    ∷ []

subscriber_gets_example :
    queue_of 1 (run (subscribes 1 ∷ ops) new_activity_bus).subs
    ≡ some (
        message_routed "s1" "ann" "bob" true "t1" "m1"
        ∷ handle_registered "cid"
        ∷ message_routed "s1" "bob" "ann" false "t1" "m2"
        ∷ [])
unfolding queue_of
subscriber_gets_example =
    subscriber_gets 1 ops new_activity_bus refl
      (tt, (tt, (tt, ((λ e. omega (arith, e)), ((λ e. omega (arith, e)), (tt, tt))))))

messages_counted_example : Balanced (run ops new_activity_bus).counters 1 1
messages_counted_example = messages_counted ops
