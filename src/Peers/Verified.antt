-- ===== src/Peers/Verified.antt =====
-- What it takes to be trusted (internal/transport/peerverifier.go, internal/identity/tofu.go).
use tailbus.Base.{
  Any, ◌≡◌, ◌↔◌, refl, String, true, ◌==◌, List, [], ◌∷◌, ok, Dict, arith, eq_iff, inl, inr, ◌⊎◌,
  Bool-cases,
}
use tailbus.Resolver.{PeerInfo, RelayInfo, Resolver}
use tailbus.Peers.{compare_keys, relay_at, peer_at, any_relay, any_peer, verify_peer_key}

-- Some peer or relay of the maps has an address and a key as told.
abbrev pub Known : (String → String → Type 0) → Resolver → Type 0
Known P r =
    Any (λ e. P e.1.advertise_addr e.1.public_key) r.handle_to
    ⊎ Any (λ (x : RelayInfo). P x.addr x.public_key) r.relays

abbrev pub Fits : String → String → String → String → Type 0
Fits addr key a k = (k ≡ key) × ((addr ≡ "") ⊎ (a ≡ addr))

same_keys : (addr known key : String) → compare_keys addr known key ≡ ok tt → known ≡ key
same_keys addr known key e = ground (arith, e, eq_iff known key)

relay_at-Fits :
    (addr key : String) (rs : List RelayInfo)
    → relay_at addr key rs ≡ ok tt
    → Any (λ (x : RelayInfo). Fits addr key x.addr x.public_key) rs
unfolding relay_at
relay_at-Fits addr key [] e = cc
relay_at-Fits addr key (r ∷ rs) e = elim (Bool-cases (r.addr == addr)) [
  | inl here ↦
      inl (same_keys addr r.public_key key (rw here at e), inr ((eq_iff r.addr addr).0 here))
  | inr there ↦ inr (relay_at-Fits addr key rs (rw there at e))
]

peer_at-Fits :
    (addr key : String) (d : Dict PeerInfo) (rs : List RelayInfo)
    → peer_at addr key d rs ≡ ok tt
    → Any (λ e. Fits addr key e.1.advertise_addr e.1.public_key) d
      ⊎ Any (λ (x : RelayInfo). Fits addr key x.addr x.public_key) rs
unfolding peer_at
peer_at-Fits addr key [] rs e = inr (relay_at-Fits addr key rs e)
peer_at-Fits addr key ((h, info) ∷ d) rs e = elim (Bool-cases (info.advertise_addr == addr)) [
  | inl here ↦ inl (
      inl (
        same_keys addr info.public_key key (rw here at e),
        inr ((eq_iff info.advertise_addr addr).0 here),
      ))
  | inr there ↦ elim (peer_at-Fits addr key d rs (rw there at e)) [
    | inl peer ↦ inl (inr peer)
    | inr relay ↦ inr relay
  ]
]

pub any_peer_iff :
    (key : String) (d : Dict PeerInfo) → (any_peer key d ≡ true) ↔ Any (λ e. e.1.public_key ≡ key) d
unfolding any_peer
any_peer_iff key [] = (λ e. ground (arith, e), λ x. absurd x)
any_peer_iff key ((h, info) ∷ d) = elim (Bool-cases (info.public_key == key)) [
  | inl here ↦ (λ e. inl ((eq_iff info.public_key key).0 here), λ x. rw here refl)
  | inr there ↦ (
    λ e. inr ((any_peer_iff key d).0 (rw there at e)),
    λ x. rw there (elim x [
      | inl same ↦ ground (arith, there, same, eq_iff info.public_key key)
      | inr later ↦ (any_peer_iff key d).1 later
    ]),
  )
]

pub any_relay_iff :
    (key : String) (rs : List RelayInfo)
    → (any_relay key rs ≡ true) ↔ Any (λ (x : RelayInfo). x.public_key ≡ key) rs
unfolding any_relay
any_relay_iff key [] = (λ e. ground (arith, e), λ x. absurd x)
any_relay_iff key (r ∷ rs) = elim (Bool-cases (r.public_key == key)) [
  | inl here ↦ (λ e. inl ((eq_iff r.public_key key).0 here), λ x. rw here refl)
  | inr there ↦ (
    λ e. inr ((any_relay_iff key rs).0 (rw there at e)),
    λ x. rw there (elim x [
      | inl same ↦ ground (arith, there, same, eq_iff r.public_key key)
      | inr later ↦ (any_relay_iff key rs).1 later
    ]),
  )
]

Any-Fits {ℓ} :
    {A : Type ℓ} (addr key : String) (a k : A → String) (xs : List A)
    → addr ≡ ""
    → Any (λ x. k x ≡ key) xs
    → Any (λ x. Fits addr key (a x) (k x)) xs
Any-Fits addr key a k [] none_given x = absurd x
Any-Fits addr key a k (y ∷ ys) none_given (inl e) = inl (e, inl none_given)
Any-Fits addr key a k (y ∷ ys) none_given (inr later) =
    inr (Any-Fits addr key a k ys none_given later)

-- A key that is accepted is that of a peer or a relay of the maps, with the address if one is given; and
-- without an address every such key is accepted.
pub verify_peer_key-Known :
    (addr key : String) (r : Resolver)
    → (verify_peer_key addr key r ≡ ok tt → Known (Fits addr key) r)
      × (Known (λ a k. k ≡ key) r → verify_peer_key "" key r ≡ ok tt)
unfolding verify_peer_key
verify_peer_key-Known addr key r = (
  λ e. elim (Bool-cases (addr == "")) [
    | inr given ↦ peer_at-Fits addr key r.handle_to r.relays (rw given at e)
    | inl inbound ↦
        let none_given = (eq_iff addr "").0 inbound in
        elim (Bool-cases (any_peer key r.handle_to)) [
          | inl peer ↦ inl (
              Any-Fits addr key (λ x. x.1.advertise_addr) (λ x. x.1.public_key) r.handle_to
                none_given ((any_peer_iff key r.handle_to).0 peer))
          | inr no_peer ↦ elim (Bool-cases (any_relay key r.relays)) [
            | inl relay ↦ inr (
                Any-Fits addr key (λ x. x.addr) (λ x. x.public_key) r.relays none_given
                  ((any_relay_iff key r.relays).0 relay))
            | inr no_relay ↦ ground (arith, e, inbound, no_peer, no_relay)
          ]
        ]
  ],
  λ known. elim known [
    | inl peer ↦ ground (arith, (any_peer_iff key r.handle_to).1 peer)
    | inr relay ↦ ground (arith, (any_relay_iff key r.relays).1 relay)
  ],
)
