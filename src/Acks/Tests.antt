-- ===== src/Acks/Tests.antt =====
-- Runs of the ACK tracker (internal/daemon/acktracker.go).
use tailbus.Base.{ℕ, ◌+◌, ◌*◌, ◌≡◌, refl, String, none, List, [], ◌∷◌, arith, lookup}
use tailbus.Envelope.{Envelope, message}
use tailbus.Acks.{Pending, AckTracker, new_ack_tracker, default_ack_timeout}
use tailbus.Acks.Expiry.{sweeps, unacked_dropped, IsSound}
use tailbus.Acks.Bucket.{IsBucket}
use tailbus.Acks.Durable.{in_memory, Op, tracked, acknowledged, swept, run}
use tailbus.Acks.Restart.{after_restart, restarted, restart_lossless, addressed}

abbrev envelope : String → Envelope
envelope id = record {
  message_id = id;
  session_id = "s1";
  from_handle = "ann";
  to_handle = "bob";
  payload = "hello";
  content_type = "text/plain";
  sent_at_unix = 7;
  type = message;
  trace_id = "t1";
  sequence = 1;
  ack_id = "";
}

-- The time limit of an ACK, 5 seconds.
abbrev five : ℕ
five = default_ack_timeout

abbrev waiting : String → ℕ → ℕ → Pending
waiting id sent_at retries = record {
  env = envelope id;
  peer_addr = "n2:9443";
  sent_at = sent_at;
  retries = retries;
}

-- One message that is due, one that is out of retries and one that is fresh.
abbrev three : AckTracker
three = record new_ack_tracker {
  pending =
      ("m1", waiting "m1" 0 0) ∷ ("m2", waiting "m2" 0 3) ∷ ("m3", waiting "m3" (2 * five) 0) ∷ [];
}

three-IsSound : IsSound three
unfolding lookup
three-IsSound = record {
  is_map = (refl, (refl, (refl, tt)));
  is_keyed = (refl, (refl, (refl, tt)));
}

-- Four sweeps, whose sends end one nanosecond later.
abbrev late : ℕ → ℕ × (String → ℕ)
late now = (now, λ id. now + 1)

abbrev four : List (ℕ × (String → ℕ))
four = late five ∷ late (2 * five + 1) ∷ late (3 * five + 2) ∷ late (4 * five + 3) ∷ []

unacked_dropped_example : lookup "m1" (sweeps four three).pending ≡ none
unfolding lookup
unacked_dropped_example =
    unacked_dropped four "m1" (waiting "m1" 0 0) three three-IsSound refl
      (omega arith, (omega arith, (omega arith, (omega arith, tt)))) (omega arith)

-- A daemon starts on an empty bucket, sends two messages, and gets one ACK.
abbrev calls : List Op
calls =
    tracked (envelope "m1") "n2:9443" 10 20
    ∷ tracked (envelope "m2") "n3:9443" 30 40
    ∷ acknowledged "m1"
    ∷ swept (2 * five) (λ id. 2 * five + 1)
    ∷ []

empty-IsBucket : IsBucket []
empty-IsBucket = record { is_map = tt; is_filed = tt }

restart_lossless_example :
    in_memory (lookup "m2" (after_restart (run calls (restarted []))).pending)
    ≡ addressed (in_memory (lookup "m2" (run calls (restarted [])).pending))
restart_lossless_example = restart_lossless calls [] "m2" empty-IsBucket
