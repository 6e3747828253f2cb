-- ===== src/Rooms/Publish/Reach.antt =====
-- Whom publishEvent reaches, and how often (internal/daemon/roommanager.go).
use tailbus.Base.{
  sym, ◌↔◌, ◌≢◌, ◌==◌, true, All, Any, Result, ok, err, str_eq_ne, ℕ, ◌+◌, ◌≡◌, refl, ap, ◌∙◌,
  String, Bool, false, eq_iff, ◌||◌, ◌&&◌, not, List, [], ◌∷◌, ◌++◌, arith, inl, inr, ◌⊎◌,
  Bool-cases, ltb, contains, Distinct, if◌then◌else◌,
}
use tailbus.Resolver.{PeerInfo, NotFound, resolve}
use tailbus.Rooms.{RoomEvent}
use tailbus.Rooms.Manager.{RoomManager, Outbound, deliver_local, send_event}
use tailbus.Rooms.Publish.{
  Target, skipped, local_agents, peer_at, target_of, target, publish_loop, publish_event,
}

-- The addresses that an event was sent to.
abbrev pub addresses : List Outbound → List String
addresses [] = []
addresses (deliver_local e ∷ r) = addresses r
addresses (send_event a e ∷ r) = a ∷ addresses r

-- How often the event went to the local agents.
abbrev pub local_count : List Outbound → ℕ
local_count [] = 0
local_count (deliver_local e ∷ r) = local_count r + 1
local_count (send_event a e ∷ r) = local_count r

abbrev pub and_remote : Target → List String → List String
and_remote (peer_at addr) addrs = addr ∷ addrs
and_remote _ addrs = addrs

abbrev pub and_local : Target → ℕ → ℕ
and_local local_agents n = n + 1
and_local _ n = n

-- The addresses of the members on other nodes, the sender left out, with repetitions.
unfoldable pub remotes : RoomManager → RoomEvent → List String → List String
remotes rm event [] = []
remotes rm event (m ∷ ms) = and_remote (target rm event m) (remotes rm event ms)

-- The number of members on this node, the sender left out.
unfoldable pub locals : RoomManager → RoomEvent → List String → ℕ
locals rm event [] = 0
locals rm event (m ∷ ms) = and_local (target rm event m) (locals rm event ms)

-- `addrs` are the addresses to serve, `n` the number of local members.
record Reaches (rm : RoomManager) (event : RoomEvent) (sent : List String) (local : Bool)
    (addrs : List String) (n : ℕ) (r : List Outbound × Bool) : Type 0 where
  distinct : Distinct (addresses r.0)
  covers : (a : String) → contains (addresses r.0) a ≡ (contains addrs a && not (contains sent a))
  counted : local_count r.0 ≡ n
  taken : r.1 ≡ (local || (rm.deliverer event && ltb 0 n))

Target-cases : (t : Target) → (t ≡ skipped) ⊎ (t ≡ local_agents) ⊎ ((a : String) × (t ≡ peer_at a))
Target-cases skipped = inl refl
Target-cases local_agents = inr (inl refl)
Target-cases (peer_at a) = inr (inr (a, refl))

publish_loop-Reaches :
    (rm : RoomManager) (event : RoomEvent) (sent : List String) (local : Bool) (ms : List String)
    → Reaches rm event sent local
        (remotes rm event ms)
        (locals rm event ms)
        (publish_loop rm event sent local ms)
unfolding publish_loop remotes locals contains
publish_loop-Reaches rm event sent local [] = record {
  distinct = tt;
  covers = λ a. refl;
  counted = refl;
  taken = ground arith;
}
publish_loop-Reaches rm event sent local (m ∷ ms) = elim (Target-cases (target rm event m)) [
  | inl e ↦
      let ih = publish_loop-Reaches rm event sent local ms in
      rw (e, publish_loop)
        (record {
          distinct = ih.distinct;
          covers = ih.covers;
          counted = ih.counted;
          taken = ih.taken;
        })
  | inr (inl e) ↦
      let ih = publish_loop-Reaches rm event sent (rm.deliverer event || local) ms in
      rw (e, publish_loop)
        (record {
          distinct = ih.distinct;
          covers = ih.covers;
          counted = ap (λ n. n + 1) ih.counted;
          taken = ih.taken ∙ ground arith;
        })
  | inr (inr (addr, e)) ↦ elim (Bool-cases (contains sent addr)) [
    | inl f ↦
        let ih = publish_loop-Reaches rm event sent local ms in
        rw (e, f, publish_loop)
          (record {
            distinct = ih.distinct;
            covers = λ a. ground (arith, ih.covers a, eq_iff addr a);
            counted = ih.counted;
            taken = ih.taken;
          })
    | inr f ↦
        let ih = publish_loop-Reaches rm event (addr ∷ sent) local ms in
        rw (e, f, publish_loop)
          (record {
            distinct = (ground (arith, ih.covers addr, eq_iff addr addr), ih.distinct);
            covers = λ a. ground (arith, ih.covers a, eq_iff addr a);
            counted = ih.counted;
            taken = ih.taken;
          })
  ]
]

addresses-snoc :
    (out : List Outbound) (e : RoomEvent) → addresses (out ++ deliver_local e ∷ []) ≡ addresses out
addresses-snoc [] e = refl
addresses-snoc (deliver_local f ∷ r) e = addresses-snoc r e
addresses-snoc (send_event a f ∷ r) e = ap (◌∷◌ a) (addresses-snoc r e)

local_count-snoc :
    (out : List Outbound) (e : RoomEvent)
    → local_count (out ++ deliver_local e ∷ []) ≡ local_count out + 1
local_count-snoc [] e = refl
local_count-snoc (deliver_local f ∷ r) e = ap (λ n. n + 1) (local_count-snoc r e)
local_count-snoc (send_event a f ∷ r) e = local_count-snoc r e

-- The event that goes out.
abbrev pub carried : Outbound → RoomEvent
carried (deliver_local e) = e
carried (send_event a e) = e

publish_loop-carried :
    (rm : RoomManager) (event : RoomEvent) (sent : List String) (local : Bool) (ms : List String)
    → All (λ o. carried o ≡ event) (publish_loop rm event sent local ms).0
unfolding publish_loop
publish_loop-carried rm event sent local [] = tt
publish_loop-carried rm event sent local (m ∷ ms) = elim (Target-cases (target rm event m)) [
  | inl e ↦ rw (e, publish_loop) (publish_loop-carried rm event sent local ms)
  | inr (inl e) ↦
      rw (e, publish_loop)
        (refl, publish_loop-carried rm event sent (rm.deliverer event || local) ms)
  | inr (inr (addr, e)) ↦ elim (Bool-cases (contains sent addr)) [
    | inl f ↦ rw (e, f, publish_loop) (publish_loop-carried rm event sent local ms)
    | inr f ↦ rw (e, f, publish_loop) (refl, publish_loop-carried rm event (addr ∷ sent) local ms)
  ]
]

carried-snoc :
    (out : List Outbound) (event : RoomEvent)
    → All (λ o. carried o ≡ event) out
    → All (λ o. carried o ≡ event) (out ++ deliver_local event ∷ [])
carried-snoc [] event h = (refl, tt)
carried-snoc (o ∷ out) event h = (h.0, carried-snoc out event h.1)

-- A member but the sender whose peer is on another node, at the address.
abbrev pub Away : RoomManager → RoomEvent → String → String → Type 0
Away rm event a m =
    (m ≢ event.sender_handle)
    × ((peer : PeerInfo) × (resolve m rm.resolver ≡ ok peer)
        × (peer.node_id ≢ rm.node_id)
        × (peer.advertise_addr ≡ a))

-- Whether a look-up gives a peer on this node.
abbrev pub here : String → Result NotFound PeerInfo → Bool
here node_id (err _) = false
here node_id (ok peer) = peer.node_id == node_id

-- The members but the sender that are on this node.
abbrev pub count_here : RoomManager → RoomEvent → List String → ℕ
count_here rm event [] = 0
count_here rm event (m ∷ ms) =
    if not (m == event.sender_handle) && here rm.node_id (resolve m rm.resolver)
    then count_here rm event ms + 1
    else count_here rm event ms

locals-count_here :
    (rm : RoomManager) (event : RoomEvent) (ms : List String)
    → locals rm event ms ≡ count_here rm event ms
unfolding locals target
locals-count_here rm event [] = refl
locals-count_here rm event (m ∷ ms) = elim (Bool-cases (m == event.sender_handle)) [
  | inl own ↦ rw own (locals-count_here rm event ms)
  | inr other ↦ rw other (placed (locals-count_here rm event ms) (resolve m rm.resolver))
]
  where
    placed :
        locals rm event ms ≡ count_here rm event ms
        → (r : Result NotFound PeerInfo)
        → and_local (target_of rm r) (locals rm event ms)
          ≡ (if here rm.node_id r then count_here rm event ms + 1 else count_here rm event ms)
    placed ih (err e) = ih
    placed ih (ok peer) = elim (Bool-cases (peer.node_id == rm.node_id)) [
      | inl e ↦ rw e (ap (λ n. n + 1) ih)
      | inr e ↦ rw e ih
    ]

target-Away :
    (rm : RoomManager) (event : RoomEvent) (a m : String)
    → (target rm event m ≡ peer_at a) ↔ Away rm event a m
unfolding target
target-Away rm event a m = elim (Bool-cases (m == event.sender_handle)) [
  | inl own ↦
      (λ e. absurd (skips (rw own at e)), λ h. absurd (h.0 ((eq_iff m event.sender_handle).0 own)))
  | inr other ↦ (
    λ e. (
      λ same. ground (arith, other, same, eq_iff m event.sender_handle),
      found (resolve m rm.resolver) refl (rw other at e),
    ),
    λ h.
        let (peer, f, away, at) = h.1 in
        rw (other, f, str_eq_ne peer.node_id rm.node_id away) (ap peer_at at),
  )
]
  where
    skips : ◌≢◌ {A = Target} skipped (peer_at a)
    skips e = cc

    found :
        (r : Result NotFound PeerInfo)
        → resolve m rm.resolver ≡ r
        → target_of rm r ≡ peer_at a
        → (peer : PeerInfo) × (resolve m rm.resolver ≡ ok peer)
          × (peer.node_id ≢ rm.node_id)
          × (peer.advertise_addr ≡ a)
    found (err e) f t = absurd (skips t)
    found (ok peer) f t = elim (Bool-cases (peer.node_id == rm.node_id)) [
      | inl same ↦ absurd (agents (rw same at t))
      | inr other ↦ (
        peer,
        f,
        λ e. ground (arith, other, e, eq_iff peer.node_id rm.node_id),
        peer_at-eq peer.advertise_addr (rw other at t),
      )
    ]
      where
        agents : ◌≢◌ {A = Target} local_agents (peer_at a)
        agents e = cc

        peer_at-eq : (b : String) → peer_at b ≡ peer_at a → b ≡ a
        peer_at-eq b e = cc

contains-remotes :
    (rm : RoomManager) (event : RoomEvent) (ms : List String) (a : String)
    → (contains (remotes rm event ms) a ≡ true) ↔ Any (Away rm event a) ms
unfolding remotes contains
contains-remotes rm event [] a = (λ e. cc, λ h. absurd h)
contains-remotes rm event (m ∷ ms) a =
    let ih = contains-remotes rm event ms a in
    elim (Target-cases (target rm event m)) [
      | inl e ↦ rw e (other ih (λ h. absurd (not_skipped (sym e ∙ (target-Away rm event a m).1 h))))
      | inr (inl e) ↦
          rw e (other ih (λ h. absurd (not_local (sym e ∙ (target-Away rm event a m).1 h))))
      | inr (inr (b, e)) ↦ elim (Bool-cases (b == a)) [
        | inl same ↦ rw e (
          λ c. inl ((target-Away rm event a m).0 (e ∙ ap peer_at ((eq_iff b a).0 same))),
          λ h. ground (arith, same),
        )
        | inr apart ↦ rw e (
          λ c. inr (ih.0 (ground (arith, apart, c))),
          λ h. elim h [
            | inl away ↦ absurd (differs b apart (sym e ∙ (target-Away rm event a m).1 away))
            | inr later ↦ ground (arith, apart, ih.1 later)
          ],
        )
      ]
    ]
  where
    not_skipped : ◌≢◌ {A = Target} skipped (peer_at a)
    not_skipped e = cc

    not_local : ◌≢◌ {A = Target} local_agents (peer_at a)
    not_local e = cc

    differs : (b : String) → (b == a) ≡ false → peer_at b ≢ peer_at a
    differs b apart e = let same : b ≡ a = cc in ground (arith, apart, same, eq_iff b a)

    other :
        ((contains (remotes rm event ms) a ≡ true) ↔ Any (Away rm event a) ms)
        → ¬ Away rm event a m
        → (contains (remotes rm event ms) a ≡ true) ↔ (Away rm event a m ⊎ Any (Away rm event a) ms)
    other ih unaway = (
      λ c. inr (ih.0 c),
      λ h. elim h [ inl away ↦ absurd (unaway away) | inr later ↦ ih.1 later ],
    )

-- What an event's publication puts into the outbox.
pub record Reach (rm : RoomManager) (event : RoomEvent) (out : List Outbound) : Type 0 where
  pub own : All (λ o. carried o ≡ event) out
  pub once : Distinct (addresses out)
  pub everyone :
      (a : String) → (contains (addresses out) a ≡ true) ↔ Any (Away rm event a) event.members
  pub local_rounds : local_count out ≡ (
      if rm.deliverer event && ltb 0 (count_here rm event event.members)
      then count_here rm event event.members
      else count_here rm event event.members + 1)

-- What goes out is the event alone. It goes once, and only once, to exactly the addresses of the peers
-- that its members but the sender resolve to on other nodes. To the local agents, all of whom one round serves, it goes in as many rounds as
-- it has members on this node, and in one more where no round was taken.
pub publish_event-Reach :
    (rm : RoomManager) (event : RoomEvent)
    → (out : List Outbound) × ((publish_event rm event).outbox ≡ rm.outbox ++ out)
      × Reach rm event out
unfolding publish_event contains
publish_event-Reach rm event = elim (Bool-cases (publish_loop rm event [] false event.members).1) [
  | inl e ↦ (
    out,
    rw e,
    record {
      own = publish_loop-carried rm event [] false event.members;
      once = r.distinct;
      everyone = λ a. rw (served a) (contains-remotes rm event event.members a);
      local_rounds = rw (← counts) (ground (arith, r.counted, r.taken, e));
    },
  )
  | inr e ↦ (
    out ++ deliver_local event ∷ [],
    rw e,
    record {
      own = carried-snoc out event (publish_loop-carried rm event [] false event.members);
      once = rw (addresses-snoc out event) r.distinct;
      everyone =
          λ a. rw (addresses-snoc out event, served a) (contains-remotes rm event event.members a);
      local_rounds =
          rw (local_count-snoc out event, ← counts) (ground (arith, r.counted, r.taken, e));
    },
  )
]
  where
    out : List Outbound
    out = (publish_loop rm event [] false event.members).0

    r :
        Reaches rm event [] false
          (remotes rm event event.members)
          (locals rm event event.members)
          (publish_loop rm event [] false event.members)
    r = publish_loop-Reaches rm event [] false event.members

    served : (a : String) → contains (addresses out) a ≡ contains (remotes rm event event.members) a
    served a = ground (arith, r.covers a)

    counts : locals rm event event.members ≡ count_here rm event event.members
    counts = locals-count_here rm event event.members
