-- ===== src/Relay/Tests.antt =====
-- Runs of the relay (internal/relay/server.go).
use tailbus.Base.{
  ◌≡◌, refl, String, Bool, false, some, none, [], ◌∷◌, ◌++◌, List, lookup, insert, str_ne, arith, ℕ,
}
use tailbus.Relay.{Message, Server, Peer, new_server, connect, forward, extract_pub_key, disconnect}
use tailbus.Relay.Forwarding.{Op, connects, leaves, receives, step, run, connected_reached}

abbrev key : String
key = "00112233445566778899"

abbrev peer : Peer
peer = record { header = some (some key); certificate = none }

works : ℕ → Bool
works id = false

abbrev busy : Server
busy = run (connects 1 peer ∷ connects 2 peer ∷ leaves 1 key ∷ []) new_server

abbrev hello : Message
hello = record { relay_target_key = key; payload = "hello" }

-- The stream 1 had the key before the stream 2, and ends after it has connected.
connected_reached_example :
    (step (receives works "aa" hello) busy).sent ≡ busy.sent ++ (2, hello) ∷ []
unfolding extract_pub_key works run step connect disconnect lookup insert
connected_reached_example =
    connected_reached key 2 peer (leaves 1 key ∷ []) (run (connects 1 peer ∷ []) new_server) works
      "aa" "hello" refl ((λ e f. omega arith), tt) (str_ne key "" refl) refl refl

abbrev course : List Op
course =
    connects 1 peer
    ∷ receives works key (record { relay_target_key = key; payload = "to myself" })
    ∷ leaves 1 key
    ∷ []

-- The message of the course is sent.
sent :
    (run course new_server).sent
    ≡ (1, record { relay_target_key = key; payload = "to myself" }) ∷ []
unfolding run step connect disconnect forward extract_pub_key lookup insert works
sent = refl
