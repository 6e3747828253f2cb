-- ===== src/Coord/PeerMap/Built.antt =====
-- The updates that a broadcast builds, and the teams whose hash they change
-- (internal/coord/peermap.go).
use tailbus.Base.{
  inc_u64, ℕ, ◌≡◌, refl, String, Bool, true, false, ◌==◌, not, Option, none, some, List, [], ◌∷◌,
  Dict, lookup, contains, arith, inl, inr, Bool-cases, IsMap, lookup-insert, eq_iff,
  lookup-insert_self, Distinct,
}
use tailbus.Coord.Registry.{NodeStore}
use tailbus.Coord.PeerMap.{
  PeerMapUpdate, Tables, build_for_team, peer_hash, topology, peers_of, relays_of, nodes_for,
}
use tailbus.Coord.PeerMap.Watch.{WatcherInfo, PeerMap, team_ids, build_all, note_changes, or_empty}

abbrev known {ℓ} : {A : Type ℓ} → Option A → Bool
known none = false
known (some _) = true

pub contains-team_ids :
    (node : String) (w : WatcherInfo) (ws : Dict WatcherInfo)
    → lookup node ws ≡ some w
    → contains (team_ids ws) w.team_id ≡ true
unfolding team_ids lookup contains
contains-team_ids node w [] e = cc
contains-team_ids node w ((k, v) ∷ ws) e = elim (Bool-cases (k == node)) [
  | inl same ↦
      let own : v ≡ w = ground (arith, same, e) in
      rw (← own) (ground (arith, eq_iff v.team_id v.team_id))
  | inr other ↦ ground (arith, contains-team_ids node w ws (ground (arith, other, e)), other)
]

pub team_ids-Distinct : (ws : Dict WatcherInfo) → Distinct (team_ids ws)
unfolding team_ids
team_ids-Distinct [] = tt
team_ids-Distinct ((k, v) ∷ ws) = ground (arith, team_ids-Distinct ws)

-- The hash of the update of a team, whatever its version.
abbrev pub team_hash : (String → String) → String → NodeStore → String
team_hash sha256 team st =
    sha256 (topology (peers_of (nodes_for team st)) (relays_of (nodes_for team st)))

-- What the builds give: an update of each team, and no other change than of the version.
pub record Built (st : Tables) (ts : List String) (pm : PeerMap) (us : Dict PeerMapUpdate)
    (pm' : PeerMap) : Type 0 where
  pub once : IsMap us
  pub built :
      (t : String) → contains ts t ≡ true → (v : ℕ) × (lookup t us ≡ some (build_for_team t st v))
  pub others : (t : String) → contains ts t ≡ false → lookup t us ≡ none
  pub as_before : pm' ≡ record pm { version = pm'.version }

module _ (sha256 : String → String) (fails : String → Bool) (up : (t : String) → fails t ≡ false)
    (st : Tables) where
  pub build_all-Built :
      (ts : List String) (pm : PeerMap)
      → Distinct ts
      → (us : Dict PeerMapUpdate) × ((build_all fails st ts pm).0 ≡ some us)
        × Built st ts pm us (build_all fails st ts pm).1
  unfolding build_all lookup contains
  build_all-Built [] pm d =
      ([], refl, record { once = tt; built = λ t h. cc; others = λ t h. refl; as_before = refl })
  build_all-Built (t ∷ ts) pm d =
      let v = inc_u64 pm.version in
      let pm₁ = record pm { version = v } in
      let (us, e, b) = build_all-Built ts pm₁ d.1 in
      (
        (t, build_for_team t st v) ∷ us,
        ground (arith, up t, e),
        rw (up t, build_all)
            (record {
              once = (b.others t d.0, b.once);
              built = λ s h. elim (Bool-cases (t == s)) [
                | inl same ↦ (v, ground (arith, same, eq_iff t s))
                | inr other ↦
                    let (v', f) = b.built s (ground (arith, h, other)) in
                    (v', ground (arith, other, f))
              ];
              others = λ s h. ground (arith, h, b.others s);
              as_before = ground (arith, b.as_before);
            }),
      )

module _ (sha256 : String → String) where
  pub note_changes-absent :
      (us : Dict PeerMapUpdate) (last : Dict String) (t : String)
      → lookup t us ≡ none
      → (contains (note_changes sha256 us last).0 t ≡ false)
        × (lookup t (note_changes sha256 us last).1 ≡ lookup t last)
  unfolding note_changes contains lookup
  note_changes-absent [] last t e = (refl, refl)
  note_changes-absent ((s, u) ∷ us) last t e =
      let ih = note_changes-absent us last t (ground (arith, e)) in
      let other : (s == t) ≡ false = ground (arith, e) in
      elim (Bool-cases (peer_hash sha256 u == or_empty (lookup s last))) [
        | inl same ↦ rw same ih
        | inr moved ↦ rw moved (
          ground (arith, other, ih.0),
          ground (
            arith,
            other,
            ih.1,
            lookup-insert s t (peer_hash sha256 u) (note_changes sha256 us last).1,
          ),
        )
      ]

  pub note_changes-changed :
      (us : Dict PeerMapUpdate) (last : Dict String) (t : String) (u : PeerMapUpdate)
      → IsMap us
      → lookup t us ≡ some u
      → (contains (note_changes sha256 us last).0 t
          ≡ not (peer_hash sha256 u == or_empty (lookup t last)))
        × (or_empty (lookup t (note_changes sha256 us last).1) ≡ peer_hash sha256 u)
  unfolding note_changes contains lookup
  note_changes-changed [] last t u m e = cc
  note_changes-changed ((s, v) ∷ us) last t u m e = elim (Bool-cases (s == t)) [
    | inl here ↦
        let st : s ≡ t = (eq_iff s t).0 here in
        let own : v ≡ u = ground (arith, here, e) in
        let (c, l) = note_changes-absent us last s m.0 in
        rw (← st, ← own)
          (elim (Bool-cases (peer_hash sha256 v == or_empty (lookup s last))) [
            | inl same ↦
                rw same (
                  c,
                  ground (arith, l, same, eq_iff (peer_hash sha256 v) (or_empty (lookup s last))),
                )
            | inr moved ↦ rw moved (
              ground (arith, eq_iff s s),
              ground (
                arith,
                lookup-insert_self s (peer_hash sha256 v) (note_changes sha256 us last).1,
              ),
            )
          ])
    | inr other ↦
        let ih = note_changes-changed us last t u m.1 (ground (arith, e, other)) in
        elim (Bool-cases (peer_hash sha256 v == or_empty (lookup s last))) [
          | inl same ↦ rw same ih
          | inr moved ↦ rw moved (
            ground (arith, other, ih.0),
            ground (
              arith,
              other,
              ih.1,
              lookup-insert s t (peer_hash sha256 v) (note_changes sha256 us last).1,
            ),
          )
        ]
  ]
