-- ===== src/Transport.antt =====
-- internal/transport/grpc.go: how a message goes to a peer, directly or over a relay. Connections are
-- numbers. The network is a parameter: the n-th operation on it connects or not, and sends or not. Calls
-- of Send run one after the other here; times are seconds.
pub mod Told
pub mod Carried
pub mod Fallback
pub mod Relayed
mod Tests
use tailbus.Base.{
  ℕ, ◌+◌, ◌-◌, String, Bool, true, false, not, ◌==◌, ◌&&◌, Option, none, some, List, [], ◌∷◌, ◌++◌,
  Result, ok, err, ltb, eqb, if◌then◌else◌, Dict, lookup, insert, delete,
}
use tailbus.Resolver.{PeerInfo, RelayInfo, Resolver}
use tailbus.Relay.{Message}

-- How a send ends: the message is taken, the stream is broken, or the caller's context ends first.
pub data Pushed : Type 0 where
  taken broken cut_off : Pushed

-- `dial n addr` is the connection that the n-th operation makes; `push n conn` says how it sends.
pub record Net : Type 0 where
  pub dial : ℕ → String → Option ℕ
  pub push : ℕ → ℕ → Pushed

-- `ops` counts the operations on the network; `dialled` lists the addresses of peers that were tried,
-- and `sent` what has been handed to the callback of a send, with the connection.
pub record Transport : Type 0 where
  pub peers : Dict ℕ
  pub relay_conns : Dict ℕ
  pub direct_fails : Dict ℕ
  pub ops : ℕ
  pub dialled : List String
  pub sent : List (ℕ × Message)

pub data SendError : Type 0 where
  not_connected send_failed no_resolver no_key no_relays all_relays_failed : SendError

abbrev pub direct_fail_ttl : ℕ
direct_fail_ttl = 60

-- The key of the first entry of the peer map with the address; the empty key stands for nil.
unfoldable pub pubkey_for_addr : String → Dict PeerInfo → String
pubkey_for_addr addr [] = ""
pubkey_for_addr addr ((h, info) ∷ d) =
    if info.advertise_addr == addr then info.public_key else pubkey_for_addr addr d

module _ (net : Net) where
  -- connect: one operation.
  abbrev pub connect : String → Transport → Option ℕ × Transport
  connect addr t =
      (net.dial t.ops addr, record t { ops = t.ops + 1; dialled = t.dialled ++ addr ∷ [] })

  abbrev pub keep_peer : String → Option ℕ × Transport → Option ℕ × Transport
  keep_peer addr (none, t) = (none, t)
  keep_peer addr (some conn, t) = elim (lookup addr t.peers) [
    | some existing ↦ (some existing, t)
    | none ↦ (some conn, record t { peers = insert addr conn t.peers })
  ]

  unfoldable pub get_or_connect : String → Transport → Option ℕ × Transport
  get_or_connect addr t = elim (lookup addr t.peers) [
    | some conn ↦ (some conn, t)
    | none ↦ keep_peer addr (connect addr t)
  ]

  abbrev pub push_on : ℕ → Transport → Pushed × Transport
  push_on conn t = (net.push t.ops conn, record t { ops = t.ops + 1 })

  abbrev pub called_back : ℕ → Message → Transport → Transport
  called_back conn msg t = record t { sent = t.sent ++ (conn, msg) ∷ [] }

  -- A broken connection goes, if it is still that of the address.
  abbrev pub forget_peer : String → ℕ → Transport → Transport
  forget_peer addr conn t = elim (lookup addr t.peers) [
    | none ↦ t
    | some current ↦ if eqb current conn then record t { peers = delete addr t.peers } else t
  ]

  -- The second try of sendDirect, on a new connection.
  abbrev pub end_again : ℕ → Message → Pushed × Transport → Result SendError (Unit {0}) × Transport
  end_again conn msg (taken, t) = (ok tt, called_back conn msg t)
  end_again conn msg (broken, t) = (err send_failed, t)
  end_again conn msg (cut_off, t) = (err send_failed, t)

  abbrev pub push_again : Message → Option ℕ × Transport → Result SendError (Unit {0}) × Transport
  push_again msg (none, t) = (err not_connected, t)
  push_again msg (some conn, t) = end_again conn msg (push_on conn t)

  abbrev pub end_first :
      String → ℕ → Message → Pushed × Transport → Result SendError (Unit {0}) × Transport
  end_first addr conn msg (taken, t) = (ok tt, called_back conn msg t)
  end_first addr conn msg (broken, t) =
      push_again msg (keep_peer addr (connect addr (forget_peer addr conn t)))
  end_first addr conn msg (cut_off, t) = (err send_failed, forget_peer addr conn t)

  abbrev pub push_first :
      String → Message → Option ℕ × Transport → Result SendError (Unit {0}) × Transport
  push_first addr msg (none, t) = (err not_connected, t)
  push_first addr msg (some conn, t) = end_first addr conn msg (push_on conn t)

  unfoldable pub send_direct :
      String → Message → Transport → Result SendError (Unit {0}) × Transport
  send_direct addr msg t = push_first addr msg (get_or_connect addr t)

  abbrev pub keep_relay : String → Option ℕ → Transport → Option ℕ × Transport
  keep_relay addr none t = (none, t)
  keep_relay addr (some conn) t = elim (lookup addr t.relay_conns) [
    | some existing ↦ (some existing, t)
    | none ↦ (some conn, record t { relay_conns = insert addr conn t.relay_conns })
  ]

  unfoldable pub get_or_connect_relay : String → Transport → Option ℕ × Transport
  get_or_connect_relay addr t = elim (lookup addr t.relay_conns) [
    | some conn ↦ (some conn, t)
    | none ↦ keep_relay addr (net.dial t.ops addr) (record t { ops = t.ops + 1 })
  ]

  -- sendOnRelay: a send that is cut off takes the connection out.
  abbrev pub forget_relay : String → ℕ → Transport → Transport
  forget_relay addr conn t = elim (lookup addr t.relay_conns) [
    | none ↦ t
    | some current ↦
        if eqb current conn then record t { relay_conns = delete addr t.relay_conns } else t
  ]

  abbrev pub end_relay :
      String
      → ℕ
      → Message
      → Pushed × Transport
      → (Transport → Result SendError (Unit {0}) × Transport)
      → Result SendError (Unit {0}) × Transport
  end_relay addr conn msg (taken, t) next = (ok tt, called_back conn msg t)
  end_relay addr conn msg (broken, t) next = next t
  end_relay addr conn msg (cut_off, t) next = next (forget_relay addr conn t)

  abbrev pub push_relay :
      String
      → Message
      → Option ℕ × Transport
      → (Transport → Result SendError (Unit {0}) × Transport)
      → Result SendError (Unit {0}) × Transport
  push_relay addr msg (none, t) next = next t
  push_relay addr msg (some conn, t) next = end_relay addr conn msg (push_on conn t) next

  -- The relays in turn, until one takes the message.
  unfoldable pub try_relays :
      List RelayInfo → Message → Transport → Result SendError (Unit {0}) × Transport
  try_relays [] msg t = (err all_relays_failed, t)
  try_relays (r ∷ rs) msg t =
      push_relay r.addr msg (get_or_connect_relay r.addr t) (λ t'. try_relays rs msg t')

  abbrev pub some_relays :
      List RelayInfo → Message → Transport → Result SendError (Unit {0}) × Transport
  some_relays [] msg t = (err no_relays, t)
  some_relays (r ∷ rs) msg t = try_relays (r ∷ rs) msg t

  abbrev pub via_relays :
      List RelayInfo → Message → String → Transport → Result SendError (Unit {0}) × Transport
  via_relays relays msg key t =
      if key == ""
      then (err no_key, t)
      else some_relays relays (record msg { relay_target_key = key }) t

  abbrev pub send_via_relay :
      Option Resolver → String → Message → Transport → Result SendError (Unit {0}) × Transport
  send_via_relay none addr msg t = (err no_resolver, t)
  send_via_relay (some r) addr msg t = via_relays r.relays msg (pubkey_for_addr addr r.handle_to) t

  abbrev pub or_relay :
      Option Resolver
      → String
      → Message
      → ℕ
      → Result SendError (Unit {0}) × Transport
      → Result SendError (Unit {0}) × Transport
  or_relay resolver addr msg now (ok _, t) = (ok tt, t)
  or_relay resolver addr msg now (err e, t) =
      send_via_relay resolver addr msg (record t { direct_fails = insert addr now t.direct_fails })

  -- The time of a failure stands for a minute.
  abbrev pub send_after :
      Option ℕ
      → Option Resolver
      → String
      → Message
      → ℕ
      → Transport
      → Result SendError (Unit {0}) × Transport
  send_after none resolver addr msg now t = or_relay resolver addr msg now (send_direct addr msg t)
  send_after (some failed) resolver addr msg now t =
      if ltb direct_fail_ttl (now - failed)
      then or_relay resolver addr msg now
          (send_direct addr msg (record t { direct_fails = delete addr t.direct_fails }))
      else send_via_relay resolver addr msg t

  unfoldable pub send :
      Option Resolver → String → Message → ℕ → Transport → Result SendError (Unit {0}) × Transport
  send resolver addr msg now t = send_after (lookup addr t.direct_fails) resolver addr msg now t

  unfoldable pub connect_to_all : List RelayInfo → Transport → Transport
  connect_to_all [] t = t
  connect_to_all (r ∷ rs) t = connect_to_all rs (get_or_connect_relay r.addr t).1

  abbrev pub connect_to_relays : Option Resolver → Transport → Transport
  connect_to_relays none t = t
  connect_to_relays (some r) t = connect_to_all r.relays t

abbrev pub drop_if : String → ℕ → Option ℕ → Dict ℕ → Dict ℕ
drop_if addr conn none d = d
drop_if addr conn (some current) d = if eqb current conn then delete addr d else d

-- The end of the receive loops of a peer and of a relay.
unfoldable pub peer_closed : String → ℕ → Transport → Transport
peer_closed addr conn t = record t { peers = drop_if addr conn (lookup addr t.peers) t.peers }

unfoldable pub relay_closed : String → ℕ → Transport → Transport
relay_closed addr conn t = record t {
  relay_conns = drop_if addr conn (lookup addr t.relay_conns) t.relay_conns;
}

-- What a relay's receive loop gives to the callback.
abbrev pub from_relay : Message → Message
from_relay msg = record msg { relay_target_key = "" }
