-- ===== src/Peers.antt =====
-- Whom a daemon trusts: internal/transport/peerverifier.go, by the maps of the resolver, and
-- internal/identity/tofu.go, by the fingerprint of the first certificate. Keys, certificates and
-- fingerprints are texts; the fingerprint is a parameter, and so are the file's failures.
pub mod Verified
pub mod FromMap
mod Tests
use tailbus.Base.{
  ℕ, String, Bool, true, false, ◌==◌, Option, none, some, List, [], ◌∷◌, Result, ok, err,
  if◌then◌else◌, Dict,
}
use tailbus.Resolver.{PeerInfo, RelayInfo, Resolver}

pub data VerifyError : Type 0 where
  key_mismatch not_found : String → VerifyError
  unknown_key : VerifyError

abbrev pub compare_keys : String → String → String → Result VerifyError (Unit {0})
compare_keys addr known key = if known == key then ok tt else err (key_mismatch addr)

-- The first relay with the address decides.
unfoldable pub relay_at : String → String → List RelayInfo → Result VerifyError (Unit {0})
relay_at addr key [] = err (not_found addr)
relay_at addr key (r ∷ rs) =
    if r.addr == addr then compare_keys addr r.public_key key else relay_at addr key rs

-- The first entry of the peer map with the address decides, or else the relays.
unfoldable pub peer_at :
    String → String → Dict PeerInfo → List RelayInfo → Result VerifyError (Unit {0})
peer_at addr key [] relays = relay_at addr key relays
peer_at addr key ((h, info) ∷ d) relays =
    if info.advertise_addr == addr
    then compare_keys addr info.public_key key
    else peer_at addr key d relays

unfoldable pub any_relay : String → List RelayInfo → Bool
any_relay key [] = false
any_relay key (r ∷ rs) = if r.public_key == key then true else any_relay key rs

unfoldable pub any_peer : String → Dict PeerInfo → Bool
any_peer key [] = false
any_peer key ((h, info) ∷ d) = if info.public_key == key then true else any_peer key d

unfoldable pub verify_peer_key : String → String → Resolver → Result VerifyError (Unit {0})
verify_peer_key addr key r =
    if addr == ""
    then if any_peer key r.handle_to
      then ok tt
      else if any_relay key r.relays
      then ok tt
      else err unknown_key
    else peer_at addr key r.handle_to r.relays

pub data TofuError : Type 0 where
  no_certificates save_failed read_failed mismatch : TofuError

-- What reading the file gives.
pub data Saved : Type 0 where
  missing unreadable : Saved
  contents : String → Saved

-- `writes` says whether the file can be written, and a failed write leaves none; `trim` is TrimSpace.
abbrev pub verify_saved :
    (String → String) → Bool → String → Saved → Result TofuError (Unit {0}) × Saved
verify_saved trim writes fp missing =
    if writes then (ok tt, contents fp) else (err save_failed, missing)
verify_saved trim writes fp unreadable = (err read_failed, unreadable)
verify_saved trim writes fp (contents saved) =
    (if trim saved == fp then ok tt else err mismatch, contents saved)

unfoldable pub verify_tofu :
    (String → String)
    → (String → String)
    → Bool
    → List String
    → Saved
    → Result TofuError (Unit {0}) × Saved
verify_tofu fingerprint trim writes [] file = (err no_certificates, file)
verify_tofu fingerprint trim writes (cert ∷ certs) file =
    verify_saved trim writes (fingerprint cert) file
