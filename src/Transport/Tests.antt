-- ===== src/Transport/Tests.antt =====
-- Sends over small networks (internal/transport/grpc.go).
use tailbus.Base.{
  Any, str_ne, false, ℕ, ◌≡◌, refl, String, none, some, [], ◌∷◌, ◌++◌, err, ltb, lookup, insert,
  delete, arith, if◌then◌else◌,
}
use tailbus.Resolver.{PeerInfo, RelayInfo, Resolver, ServiceManifest, resolve}
use tailbus.Relay.{Message, Peer, Server, new_server, connect, extract_pub_key}
use tailbus.Relay.Forwarding.{connects, receives, run, step}
use tailbus.Transport.Relayed.{relayed_reached}
use tailbus.Transport.{
  Net, Transport, taken, broken, send, send_direct, get_or_connect, get_or_connect_relay,
  try_relays, pubkey_for_addr, send_failed,
}
use tailbus.Transport.Told.{Told, Meant, send-Told}
use tailbus.Transport.Fallback.{ByRelay, failure_holds}

abbrev manifest : ServiceManifest
manifest = record {
  description = "";
  commands = [];
  tags = [];
  version = "";
  capabilities = [];
  domains = [];
  input_types = [];
  output_types = [];
}

abbrev key : String
key = "0011223344556677"

abbrev info : PeerInfo
info = record { node_id = "n2"; public_key = key; advertise_addr = "a2"; manifest = manifest }

abbrev maps : Resolver
maps = record {
  handle_to = ("sales", info) ∷ [];
  nodes = [];
  relays = record { node_id = "r"; public_key = "kr"; addr = "ar" } ∷ [];
  rooms = [];
}

abbrev msg : Message
msg = record { relay_target_key = ""; payload = "hello" }

abbrev keyed : Message
keyed = record { relay_target_key = key; payload = "hello" }

abbrev idle : Transport
idle = record { peers = []; relay_conns = []; direct_fails = []; ops = 0; dialled = []; sent = [] }

-- Every connection is made; the first two sends break.
abbrev relay_only : Net
relay_only = record { dial = λ n addr. some n; push = λ n conn. if ltb n 5 then broken else taken }

direct_fails : (send_direct relay_only "a2" msg idle).0 ≡ err send_failed
unfolding send_direct get_or_connect lookup insert delete
direct_fails = refl

abbrev relayed : Transport
relayed = (send relay_only (some maps) "a2" msg 100 idle).1

over_relay : (relayed.sent ≡ (4, keyed) ∷ []) × (relayed.dialled ≡ "a2" ∷ "a2" ∷ [])
unfolding send send_direct get_or_connect get_or_connect_relay try_relays pubkey_for_addr lookup
    insert delete
over_relay = (refl, refl)

send-Told_example :
    Told (Meant (some maps) "a2" msg) idle (send relay_only (some maps) "a2" msg 100 idle)
send-Told_example = send-Told relay_only (some maps) "a2" msg 100 idle

failure_holds_example :
    ByRelay relay_only
      (some maps)
      "a2"
      msg
      relayed
      (send relay_only (some maps) "a2" msg 160 relayed)
unfolding lookup
failure_holds_example =
    failure_holds relay_only (some maps) "a2" msg 100 160 idle send_failed refl direct_fails
      (omega arith)

abbrev stream : Peer
stream = record { header = none; certificate = some key }

abbrev relay : Server
relay = run (connects 9 stream ∷ []) new_server

abbrev again : Transport
again = (send relay_only (some maps) "a2" msg 160 relayed).1

relayed_reached_example :
    (conn : ℕ) × (m : Message) × (again.sent ≡ relayed.sent ++ (conn, m) ∷ [])
    × Any (λ (x : RelayInfo). lookup x.addr again.relay_conns ≡ some conn) maps.relays
    × (m.payload ≡ "hello")
    × ((step (receives (λ i. false) "aa" m) relay).sent ≡ relay.sent ++ (9, m) ∷ [])
unfolding send send_direct get_or_connect get_or_connect_relay try_relays pubkey_for_addr lookup
    insert delete resolve run step connect extract_pub_key
relayed_reached_example =
    relayed_reached relay_only "sales" maps info msg 100 160 relayed 9 stream [] new_server
      (λ i. false) "aa" refl ((λ e. refl), tt) (str_ne key "" refl) refl (omega arith) refl refl tt
      refl refl
