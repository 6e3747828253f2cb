-- ===== src/Relay.antt =====
-- internal/relay/server.go: the relay that forwards messages between daemons which cannot reach each
-- other. A key is its hex text, a stream a number; what is sent on a stream is a list of the state. A
-- slice `key[:16]` of a shorter text panics, in the server's logging too, and ends the process.
pub mod Forwarding
pub mod Panics
mod Tests
use Prim.Native.String.{len}
use tailbus.Base.{
  ℕ, String, Bool, true, false, ◌==◌, Option, none, some, List, [], ◌∷◌, ◌++◌, Result, ok, err, ltb,
  eqb, if◌then◌else◌, Dict, lookup, insert, delete,
}

pub record Message : Type 0 where
  pub relay_target_key : String
  pub payload : String

pub record Server : Type 0 where
  pub streams : Dict ℕ
  pub sent : List (ℕ × Message)
  pub panicked : Bool

pub data IdentifyError : Type 0 where
  bad_header no_certificate : IdentifyError

abbrev pub new_server : Server
new_server = record { streams = []; sent = []; panicked = false }

-- The header of a stream, if it has one, with the key if it decodes; and the key of the certificate.
pub record Peer : Type 0 where
  pub header : Option (Option String)
  pub certificate : Option String

abbrev pub certified : Option String → Result IdentifyError String
certified none = err no_certificate
certified (some key) = ok key

abbrev pub by_header : Option (Option String) → Option String → Result IdentifyError String
by_header none cert = certified cert
by_header (some none) cert = err bad_header
by_header (some (some key)) cert = ok key

unfoldable pub extract_pub_key : Peer → Result IdentifyError String
extract_pub_key p = by_header p.header p.certificate

-- key[:16]
abbrev pub cut : String → Server → Server
cut key s = if ltb (len key) 16 then record s { panicked = true } else s

-- The start of Exchange: the stream takes the place of an older one with the same key.
abbrev pub register : ℕ → Result IdentifyError String → Server → Server
register id (err e) s = s
register id (ok key) s = cut key (record s { streams = insert key id s.streams })

unfoldable pub connect : ℕ → Peer → Server → Server
connect id p s = register id (extract_pub_key p) s

abbrev pub drop_if : String → ℕ → Option ℕ → Server → Server
drop_if key id none s = s
drop_if key id (some current) s =
    if eqb current id then record s { streams = delete key s.streams } else s

-- The end of a stream: only its own entry goes.
unfoldable pub disconnect : ℕ → String → Server → Server
disconnect id key s = drop_if key id (lookup key s.streams) s

-- The send to a target that has been found; `broken` says which streams fail. Both outcomes are logged
-- with the keys cut, and so is a target that is not connected.
abbrev pub send_to : (ℕ → Bool) → String → Message → Option ℕ → Server → Server
send_to broken from msg none s = cut msg.relay_target_key (cut from s)
send_to broken from msg (some target) s =
    if broken target
    then cut msg.relay_target_key s
    else cut msg.relay_target_key (cut from (record s { sent = s.sent ++ (target, msg) ∷ [] }))

-- One message that the stream of the key `from` has received.
unfoldable pub forward : (ℕ → Bool) → String → Message → Server → Server
forward broken from msg s =
    if msg.relay_target_key == ""
    then cut from s
    else send_to broken from msg (lookup msg.relay_target_key s.streams) s
