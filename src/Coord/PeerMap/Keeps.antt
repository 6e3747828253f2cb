-- ===== src/Coord/PeerMap/Keeps.antt =====
-- What a broadcast leaves of the watchers and their channels (internal/coord/peermap.go).
use tailbus.Base.{
  inc_u64, ℕ, suc, zero, ◌<◌, ◌≡◌, refl, sym, ◌∙◌, ap, subst, String, Bool, true, false, not,
  Option, none, some, List, [], ◌∷◌, ◌++◌, ltb, eqb, if◌then◌else◌, Dict, lookup, insert, contains,
  length, get_elem?, set, arith, inl, inr, Bool-cases, Option-cases, IsMap, eq_iff, All,
}
use tailbus.Coord.PeerMap.{PeerMapUpdate, Tables, build_for_team, peer_hash}
use tailbus.Coord.PeerMap.Watch.{
  Chan, WatcherInfo, PeerMap, team_ids, build_all, note_changes, send, send_changed, send_forced,
  finish_broadcast, broadcast, build_forced, finish_forced, force_broadcast, watcher_capacity,
}

abbrev pub open_chan : Option Chan → Bool
open_chan none = false
open_chan (some c) = not c.closed

abbrev pub is_open : ℕ → PeerMap → Bool
is_open ch pm = open_chan (get_elem? pm.chans ch)

abbrev written {ℓ} : {A : Type ℓ} → A → Option A → Option A
written v none = none
written v (some _) = some v

pub get_elem?-set {ℓ} :
    {A : Type ℓ} (xs : List A) (i j : ℕ) (v : A)
    → get_elem? (set xs i v) j ≡ (if eqb i j then written v (get_elem? xs j) else get_elem? xs j)
get_elem?-set [] i j v = ground arith
get_elem?-set (x ∷ xs) zero zero v = refl
get_elem?-set (x ∷ xs) zero (suc j) v = ground arith
get_elem?-set (x ∷ xs) (suc i) zero v = ground arith
get_elem?-set (x ∷ xs) (suc i) (suc j) v = ground (arith, get_elem?-set xs i j v)

pub get_elem?-snoc {ℓ} :
    {A : Type ℓ} (xs : List A) (v : A) (j : ℕ)
    → get_elem? (xs ++ v ∷ []) j ≡ (if eqb (length xs) j then some v else get_elem? xs j)
get_elem?-snoc [] v zero = refl
get_elem?-snoc [] v (suc j) = ground arith
get_elem?-snoc (x ∷ xs) v zero = ground arith
get_elem?-snoc (x ∷ xs) v (suc j) = ground (arith, get_elem?-snoc xs v j)

pub open_below :
    (chans : List Chan) (j : ℕ) → open_chan (get_elem? chans j) ≡ true → j < length chans
open_below [] j h = cc
open_below (c ∷ chans) zero h = omega arith
open_below (c ∷ chans) (suc j) h = omega (arith, open_below chans j h)

-- Nothing has crashed, and each watcher has an open channel of its own.
pub record IsCalm (pm : PeerMap) : Type 0 where
  pub calm : pm.panicked ≡ false
  pub once : IsMap pm.watchers
  pub opened :
      (node : String) (w : WatcherInfo) → lookup node pm.watchers ≡ some w → is_open w.ch pm ≡ true
  pub apart :
      (a b : String) (v w : WatcherInfo)
      → lookup a pm.watchers ≡ some v
      → lookup b pm.watchers ≡ some w
      → v.ch ≡ w.ch
      → a ≡ b

-- A send changes no channel from open to closed, and crashes only on a closed one.
send-is_open :
    (u : Option PeerMapUpdate) (ch i : ℕ) (pm : PeerMap) → is_open i (send u ch pm) ≡ is_open i pm
unfolding send
send-is_open u ch i pm = elim (Option-cases (get_elem? pm.chans ch)) [
  | inl e ↦ rw e refl
  | inr (c, e) ↦ rw e (elim (Bool-cases c.closed) [
    | inl shut ↦ rw shut refl
    | inr live ↦ rw live (elim (Bool-cases (ltb (length c.queue) watcher_capacity)) [
      | inl room ↦ rw room (
          ground
            (arith, get_elem?-set pm.chans ch i (record c { queue = c.queue ++ u ∷ [] }), e, live))
      | inr full ↦ rw full refl
    ])
  ])
]

send-panicked :
    (u : Option PeerMapUpdate) (ch : ℕ) (pm : PeerMap)
    → is_open ch pm ≡ true
    → (send u ch pm).panicked ≡ pm.panicked
unfolding send
send-panicked u ch pm h = ground (arith, h)

send-watchers :
    (u : Option PeerMapUpdate) (ch : ℕ) (pm : PeerMap) → (send u ch pm).watchers ≡ pm.watchers
unfolding send
send-watchers u ch pm = ground arith

-- What the entries of a map say, if its look-ups say so.
pub All-lookup {ℓ κ} :
    {V : Type ℓ} (P : V → Type κ) (ws : Dict V)
    → IsMap ws
    → ((node : String) (w : V) → lookup node ws ≡ some w → P w)
    → All (λ e. P e.1) ws
unfolding lookup
All-lookup P [] m h = tt
All-lookup P ((k, v) ∷ ws) m h = (
  h k v (ground (arith, eq_iff k k)),
  All-lookup P ws m.1 (λ node w e. h node w (ground (arith, e, m.0, eq_iff k node))),
)

-- The watchers, the crashes and the open channels are as before.
record Keeps (pm pm' : PeerMap) : Type 0 where
  watched : pm'.watchers ≡ pm.watchers
  crashes : pm'.panicked ≡ pm.panicked
  open_as : (i : ℕ) → is_open i pm' ≡ is_open i pm

Keeps-trans : (a b c : PeerMap) → Keeps a b → Keeps b c → Keeps a c
Keeps-trans a b c k l = record {
  watched = l.watched ∙ k.watched;
  crashes = l.crashes ∙ k.crashes;
  open_as = λ i. l.open_as i ∙ k.open_as i;
}

Keeps-IsCalm : (pm pm' : PeerMap) → Keeps pm pm' → IsCalm pm → IsCalm pm'
Keeps-IsCalm pm pm' k c = record {
  calm = k.crashes ∙ c.calm;
  once = subst IsMap (sym k.watched) c.once;
  opened = λ node w e. k.open_as w.ch ∙ c.opened node w (sym (ap (lookup node) k.watched) ∙ e);
  apart = λ a b v w e f same.
      c.apart a b v w (sym (ap (lookup a) k.watched) ∙ e) (sym (ap (lookup b) k.watched) ∙ f) same;
}

send-Keeps :
    (u : Option PeerMapUpdate) (ch : ℕ) (pm : PeerMap)
    → is_open ch pm ≡ true
    → Keeps pm (send u ch pm)
send-Keeps u ch pm h = record {
  watched = send-watchers u ch pm;
  crashes = send-panicked u ch pm h;
  open_as = λ i. send-is_open u ch i pm;
}

abbrev AllOpen : PeerMap → Dict WatcherInfo → Type 0
AllOpen pm = All (λ e. is_open e.1.ch pm ≡ true)

AllOpen-Keeps :
    (pm pm' : PeerMap) (ws : Dict WatcherInfo) → Keeps pm pm' → AllOpen pm ws → AllOpen pm' ws
AllOpen-Keeps pm pm' [] k h = tt
AllOpen-Keeps pm pm' (e ∷ ws) k h = (k.open_as e.1.ch ∙ h.0, AllOpen-Keeps pm pm' ws k h.1)

same-Keeps : (pm : PeerMap) → Keeps pm pm
same-Keeps pm = record { watched = refl; crashes = refl; open_as = λ i. refl }

send_changed-Keeps :
    (us : Dict PeerMapUpdate) (changed : List String) (ws : Dict WatcherInfo) (pm : PeerMap)
    → AllOpen pm ws
    → Keeps pm (send_changed us changed ws pm)
unfolding send_changed
send_changed-Keeps us changed [] pm h = same-Keeps pm
send_changed-Keeps us changed ((node, w) ∷ ws) pm h =
    elim (Bool-cases (contains changed w.team_id)) [
      | inl moved ↦
          let pm' = send (lookup w.team_id us) w.ch pm in
          let k = send-Keeps (lookup w.team_id us) w.ch pm h.0 in
          rw moved (
            Keeps-trans pm pm' _ k
              (send_changed-Keeps us changed ws pm' (AllOpen-Keeps pm pm' ws k h.1)))
      | inr still ↦ rw still (send_changed-Keeps us changed ws pm h.1)
    ]

send_forced-Keeps :
    (us : Dict PeerMapUpdate) (ws : Dict WatcherInfo) (pm : PeerMap)
    → AllOpen pm ws
    → Keeps pm (send_forced us ws pm)
unfolding send_forced
send_forced-Keeps us [] pm h = same-Keeps pm
send_forced-Keeps us ((node, w) ∷ ws) pm h =
    let pm' = send (lookup w.team_id us) w.ch pm in
    let k = send-Keeps (lookup w.team_id us) w.ch pm h.0 in
    Keeps-trans pm pm' _ k (send_forced-Keeps us ws pm' (AllOpen-Keeps pm pm' ws k h.1))

module _ (sha256 : String → String) (fails : String → Bool) (st : Tables) where
  build_all-Keeps : (ts : List String) (pm : PeerMap) → Keeps pm (build_all fails st ts pm).1
  unfolding build_all
  build_all-Keeps [] pm = same-Keeps pm
  build_all-Keeps (t ∷ ts) pm = elim (Bool-cases (fails t)) [
    | inl down ↦ rw (down, build_all) (same-Keeps pm)
    | inr up ↦
        rw (up, build_all)
          (let pm' = record pm { version = inc_u64 pm.version } in
            let k : Keeps pm pm' = record { watched = refl; crashes = refl; open_as = λ i. refl } in
            Keeps-trans pm pm' _ k (build_all-Keeps ts pm'))
  ]

  build_forced-Keeps :
      (ts : List String) (pm : PeerMap) → Keeps pm (build_forced sha256 fails st ts pm).1
  unfolding build_forced
  build_forced-Keeps [] pm = same-Keeps pm
  build_forced-Keeps (t ∷ ts) pm = elim (Bool-cases (fails t)) [
    | inl down ↦ rw (down, build_forced) (same-Keeps pm)
    | inr up ↦
        rw (up, build_forced)
          (let v = inc_u64 pm.version in
            let u = build_for_team t st v in
            let pm' = record pm {
              version = v;
              last_hash = insert t (peer_hash sha256 u) pm.last_hash;
            } in
            let k : Keeps pm pm' = record { watched = refl; crashes = refl; open_as = λ i. refl } in
            Keeps-trans pm pm' _ k (build_forced-Keeps ts pm'))
  ]

  calm-AllOpen : (pm : PeerMap) → IsCalm pm → AllOpen pm pm.watchers
  calm-AllOpen pm c = All-lookup (λ w. is_open w.ch pm ≡ true) pm.watchers c.once c.opened

  finish-IsCalm :
      (us : Option (Dict PeerMapUpdate)) (pm : PeerMap)
      → IsCalm pm
      → IsCalm (finish_broadcast sha256 us pm).1
  finish-IsCalm none pm c = c
  finish-IsCalm (some us) pm c =
      let (changed, last) = note_changes sha256 us pm.last_hash in
      let pm' = record pm { last_hash = last } in
      let k : Keeps pm pm' = record { watched = refl; crashes = refl; open_as = λ i. refl } in
      Keeps-IsCalm pm _
        (Keeps-trans pm pm' _ k (
          send_changed-Keeps us changed pm.watchers pm'
            (AllOpen-Keeps pm pm' pm.watchers k (calm-AllOpen pm c))))
        c

  pub broadcast-IsCalm : (pm : PeerMap) → IsCalm pm → IsCalm (broadcast sha256 fails st pm).1
  unfolding broadcast
  broadcast-IsCalm pm c =
      let (us, pm') = build_all fails st (team_ids pm.watchers) pm in
      finish-IsCalm us pm' (Keeps-IsCalm pm pm' (build_all-Keeps (team_ids pm.watchers) pm) c)

  forced-IsCalm :
      (us : Option (Dict PeerMapUpdate)) (pm : PeerMap) → IsCalm pm → IsCalm (finish_forced us pm).1
  forced-IsCalm none pm c = c
  forced-IsCalm (some us) pm c =
      Keeps-IsCalm pm _ (send_forced-Keeps us pm.watchers pm (calm-AllOpen pm c)) c

  pub force_broadcast-IsCalm :
      (pm : PeerMap) → IsCalm pm → IsCalm (force_broadcast sha256 fails st pm).1
  unfolding force_broadcast
  force_broadcast-IsCalm pm c =
      let (us, pm') = build_forced sha256 fails st (team_ids pm.watchers) pm in
      forced-IsCalm us pm' (Keeps-IsCalm pm pm' (build_forced-Keeps (team_ids pm.watchers) pm) c)
