-- ===== src/Coord/Client/Routes.antt =====
-- From the tables of the server to the resolver of a daemon: which node a handle resolves to
-- (internal/coord/store.go, internal/coord/peermap.go, internal/daemon/coordclient.go).
use tailbus.Base.{
  eq_of_some, subst, from_option, ℕ, ◌≡◌, ◌≢◌, refl, sym, ◌∙◌, ap, String, Bool, true, false, ◌==◌,
  ◌&&◌, not, none, some, List, [], ◌∷◌, if◌then◌else◌, Dict, lookup, insert, contains, arith,
  eq_iff, Bool-cases, inl, inr, ◌⊎◌, All, IsMap, keep, lookup-insert, Result, ok, err, str_eq_ne,
}
use tailbus.Resolver
use tailbus.Resolver.{Resolver, resolve, update_peer_map, update_nodes, update_relays, update_rooms}
use tailbus.Coord.Registry.{
  NodeRow, HandleRow, NodeStore, NodeRecord, node_row, has_row, handles_of, manifest_or_description,
}
use tailbus.Coord.Registry.Calls.{
  get_nodes_by_team, with_handles, team_or_relay, record_of, register_node,
}
use tailbus.Coord.Registry.Unique.{IsUnique, register_node-IsUnique}
use tailbus.Coord.Registry.Found.{register_node-Serves}
use tailbus.Coord.Registry.Sound.{IsSound, register-IsSound}
use tailbus.Coord.PeerMap
use tailbus.Coord.PeerMap.{Tables, build_for_team, peers_of, peer_of, nodes_for}
use tailbus.Coord.Client.{info_of, add_handles, add_peers, apply_update}

-- The first of the peers that lists a handle, if the entries of it are theirs.
pub In : PeerMap.PeerInfo → List PeerMap.PeerInfo → Type 0
In p [] = ⊥
In p (q ∷ qs) = (p ≡ q) ⊎ In p qs

lookup-add_handles :
    (p : PeerMap.PeerInfo) (hs : List String) (d : Dict Resolver.PeerInfo) (h : String)
    → lookup h (add_handles p hs d) ≡ (if contains hs h then some (info_of p h) else lookup h d)
unfolding add_handles contains
lookup-add_handles p [] d h = refl
lookup-add_handles p (k ∷ hs) d h = ground (
  arith,
  lookup-add_handles p hs (insert k (info_of p k) d) h,
  lookup-insert k h (info_of p k) d,
  eq_iff k h,
)

abbrev Lacks : String → List PeerMap.PeerInfo → Type 0
Lacks h = All (λ p. contains p.handles h ≡ false)

-- An entry comes from a peer that lists the handle, or from before, if none does.
lookup-add_peers :
    (ps : List PeerMap.PeerInfo) (d : Dict Resolver.PeerInfo) (h : String)
    → (Lacks h ps × (lookup h (add_peers ps d) ≡ lookup h d))
      ⊎ ((p : PeerMap.PeerInfo) × In p ps
          × (contains p.handles h ≡ true)
          × (lookup h (add_peers ps d) ≡ some (info_of p h)))
unfolding add_peers In
lookup-add_peers [] d h = inl (tt, refl)
lookup-add_peers (p ∷ ps) d h = elim (lookup-add_peers ps (add_handles p p.handles d) h) [
  | inr (q, there, lists, e) ↦ inr (q, inr there, lists, e)
  | inl (lacks, e) ↦ elim (Bool-cases (contains p.handles h)) [
    | inl lists ↦
        inr (p, inl refl, lists, ground (arith, e, lookup-add_handles p p.handles d h, lists))
    | inr without ↦
        inl ((without, lacks), ground (arith, e, lookup-add_handles p p.handles d h, without))
  ]
]

contains-handles_of :
    (node h : String) (rows : List HandleRow)
    → contains (handles_of node rows) h ≡ has_row h node rows
unfolding handles_of has_row contains
contains-handles_of node h [] = refl
contains-handles_of node h (r ∷ rows) = ground (arith, contains-handles_of node h rows)

module _ (team : String) (rows : List HandleRow) where
  abbrev scope : Dict NodeRow → List PeerMap.PeerInfo
  scope nodes = peers_of (with_handles (keep (team_or_relay team) nodes) rows)

  abbrev peer : String → NodeRow → PeerMap.PeerInfo
  peer id n = peer_of (record_of id n manifest_or_description rows)

  -- What stands at the head of the peers for the first node.
  scope-cons :
      (id : String) (n : NodeRow) (nodes : Dict NodeRow)
      → scope ((id, n) ∷ nodes)
        ≡ (if (n.team_id == team) && not n.is_relay then peer id n ∷ scope nodes else scope nodes)
  unfolding with_handles peers_of
  scope-cons id n nodes = ground arith

  -- A peer of the scope is a node of the team that is no relay.
  Scoped : Dict NodeRow → PeerMap.PeerInfo → Type 0
  Scoped nodes p =
      (n : NodeRow) × (lookup p.node_id nodes ≡ some n)
      × (n.team_id ≡ team)
      × (n.is_relay ≡ false)
      × (p ≡ peer p.node_id n)

  Scoped-tail :
      (k : String) (v : NodeRow) (nodes : Dict NodeRow) (p : PeerMap.PeerInfo)
      → lookup k nodes ≡ none
      → Scoped nodes p
      → Scoped ((k, v) ∷ nodes) p
  unfolding Scoped lookup
  Scoped-tail k v nodes p absent (n, e, t, r, same) =
      (n, ground (arith, absent, e, eq_iff k p.node_id), t, r, same)

  In-scope :
      (nodes : Dict NodeRow) (p : PeerMap.PeerInfo)
      → IsMap nodes
      → In p (scope nodes)
      → Scoped nodes p
  unfolding Scoped lookup In with_handles peers_of
  In-scope [] p m there = absurd there
  In-scope ((k, v) ∷ nodes) p m there = elim (Bool-cases ((v.team_id == team) && not v.is_relay)) [
    | inl here ↦ elim (rw here at (subst (In p) (scope-cons k v nodes) there)) [
      | inl same ↦ (
        v,
        rw same (ground (arith, eq_iff k k)),
        ground (arith, here, eq_iff v.team_id team),
        ground (arith, here),
        rw same refl,
      )
      | inr later ↦ Scoped-tail k v nodes p m.0 (In-scope nodes p m.1 later)
    ]
    | inr skipped ↦
        Scoped-tail k v nodes p m.0
          (In-scope nodes p m.1 (rw skipped at (subst (In p) (scope-cons k v nodes) there)))
  ]

  Lacks-scope :
      (nodes : Dict NodeRow) (h id : String) (n : NodeRow)
      → lookup id nodes ≡ some n
      → n.team_id ≡ team
      → n.is_relay ≡ false
      → has_row h id rows ≡ true
      → Lacks h (scope nodes)
      → ⊥
  unfolding lookup
  Lacks-scope [] h id n e t r row lacks = cc
  Lacks-scope ((k, v) ∷ nodes) h id n e t r row lacks =
      let lacks' = subst (Lacks h) (scope-cons k v nodes) lacks in
      elim (Bool-cases (k == id)) [
        | inl here ↦
            let own : v ≡ n = ground (arith, here, e) in
            let b : ((v.team_id == team) && not v.is_relay) ≡ true =
              subst (λ (x : NodeRow). ((x.team_id == team) && not x.is_relay) ≡ true) (sym own)
                (ground (arith, t, r, eq_iff n.team_id team)) in
            let without = (rw b at lacks').0 in
            ground (arith, without, contains-handles_of k h rows, row, here, eq_iff k id)
        | inr other ↦ elim (Bool-cases ((v.team_id == team) && not v.is_relay)) [
          | inl b ↦ Lacks-scope nodes h id n (ground (arith, e, other)) t r row ((rw b at lacks').1)
          | inr b ↦ Lacks-scope nodes h id n (ground (arith, e, other)) t r row (rw b at lacks')
        ]
      ]

-- What a daemon in a team resolves a handle to, once it has the map of the team.
abbrev pub resolved :
    String → String → Tables → ℕ → Resolver → Result Resolver.NotFound Resolver.PeerInfo
resolved h team st v r = resolve h (apply_update (build_for_team team st v) r)

module _ (h team : String) (st : Tables) (v : ℕ) (r : Resolver) (scoped : team ≢ "") where
  resolved-entries :
      resolved h team st v r
      ≡ from_option
          (lookup h (add_peers (scope team st.nodes.handles st.nodes.nodes) []))
          (Resolver.handle_not_found h)
  unfolding resolve apply_update build_for_team nodes_for get_nodes_by_team update_peer_map
      update_nodes update_relays update_rooms
  resolved-entries = rw (str_eq_ne team "" scoped) refl

  -- In tables that hold each node once, a daemon in a team resolves a handle to a node of its team that
  -- serves the handle and is no relay, with the key and the address of that node; it finds none only if
  -- no such node serves the handle.
  pub resolve-build_for_team :
      IsMap st.nodes.nodes
      → ((info : Resolver.PeerInfo) × (resolved h team st v r ≡ ok info)
          × ((n : NodeRow) × (lookup info.node_id st.nodes.nodes ≡ some n)
              × (n.team_id ≡ team)
              × (n.is_relay ≡ false)
              × (has_row h info.node_id st.nodes.handles ≡ true)
              × (info.public_key ≡ n.public_key)
              × (info.advertise_addr ≡ n.advertise_addr)))
        ⊎ ((resolved h team st v r ≡ err (Resolver.handle_not_found h))
            × ((id : String) (n : NodeRow)
                → lookup id st.nodes.nodes ≡ some n
                → n.team_id ≡ team
                → n.is_relay ≡ false
                → has_row h id st.nodes.handles ≡ false))
  unfolding Scoped lookup
  resolve-build_for_team once =
      elim (lookup-add_peers (scope team st.nodes.handles st.nodes.nodes) [] h) [
        | inl (lacks, e) ↦ inr (
          rw (resolved-entries, e) refl,
          λ id n f t p. elim (Bool-cases (has_row h id st.nodes.handles)) [
            | inl row ↦
                absurd (Lacks-scope team st.nodes.handles st.nodes.nodes h id n f t p row lacks)
            | inr without ↦ without
          ],
        )
        | inr (p, there, lists, e) ↦
            let (n, f, t, plain, same) =
              In-scope team st.nodes.handles st.nodes.nodes p once there in
            inl (
              info_of p h,
              rw (resolved-entries, e) refl,
              (
                n,
                f,
                t,
                plain,
                sym (contains-handles_of p.node_id h st.nodes.handles)
                    ∙ subst (λ (q : PeerMap.PeerInfo). contains q.handles h ≡ true) same lists,
                ap (λ (q : PeerMap.PeerInfo). q.public_key) same,
                ap (λ (q : PeerMap.PeerInfo). q.advertise_addr) same,
              ),
            )
      ]

-- From the registration to the resolver: where each handle has one node in each team, a node that has
-- been registered in a team is the one to which a daemon in the team then resolves each of its handles,
-- with the key and the address that it gave, if it is no relay.
pub resolve-register_node :
    (rec : NodeRecord) (st : Tables) (st' : NodeStore) (h : String) (v : ℕ) (r : Resolver)
    → IsUnique st.nodes
    → IsSound st.nodes
    → rec.team_id ≢ ""
    → rec.is_relay ≡ false
    → register_node rec st.nodes ≡ (ok tt, st')
    → contains rec.handles h ≡ true
    → (info : Resolver.PeerInfo) × (resolved h rec.team_id (record st { nodes = st' }) v r
        ≡ ok info)
      × (info.node_id ≡ rec.node_id)
      × (info.public_key ≡ rec.public_key)
      × (info.advertise_addr ≡ rec.advertise_addr)
resolve-register_node rec st st' h v r unique sound scoped plain done listed =
    let st₁ = record st { nodes = st' } in
    let unique' : IsUnique st' =
      rw done at (register_node-IsUnique rec st.nodes unique (λ n _ e. absurd (scoped e))) in
    let sound' : IsSound st' = rw done at (register-IsSound rec st.nodes sound) in
    let (row, serves) = register_node-Serves rec st.nodes st' h done listed in
    elim (resolve-build_for_team h rec.team_id st₁ v r scoped sound'.nodes_once) [
      | inl (info, e, (n, f, t, p, has, key, addr)) ↦
          let same : info.node_id ≡ rec.node_id =
            unique' h rec.team_id info.node_id rec.node_id
              (has, ground (arith, f, t, eq_iff n.team_id rec.team_id)) serves in
          let own : n ≡ node_row rec =
            eq_of_some (sym f ∙ ap (λ id. lookup id st'.nodes) same ∙ row) in
          (
            info,
            e,
            same,
            key ∙ ap (λ (x : NodeRow). x.public_key) own,
            addr ∙ ap (λ (x : NodeRow). x.advertise_addr) own,
          )
      | inr (e, none_there) ↦
          absurd (no_row (serves.0) (none_there rec.node_id (node_row rec) row refl plain))
    ]
  where
    no_row : {b : Bool} → b ≡ true → b ≡ false → ⊥
    no_row p q = cc
