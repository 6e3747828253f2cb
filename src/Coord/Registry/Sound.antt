-- ===== src/Coord/Registry/Sound.antt =====
-- The tables of internal/coord/store.go under every operation: each key once, each handle of a node
-- that is there, and what the removal of stale nodes leaves.
use tailbus.Base.{
  ℕ, ◌+◌, ◌≡◌, refl, sym, ◌∙◌, String, Bool, true, false, ◌==◌, ◌&&◌, not, Option, none, some, List,
  [], ◌∷◌, Result-cases, Dict, lookup, insert, contains, arith, eq_iff, Bool-cases, Option-cases,
  inl, inr, lookup-insert, lookup-delete, IsMap, insert-IsMap, delete-IsMap, ltb, keep, length,
}
use tailbus.Resolver.{ServiceManifest}
use tailbus.Coord.Registry.{
  NodeRow, HandleRow, NodeStore, NodeRecord, delete_handles, has_row, insert_handles,
  replace_handles, update_heartbeat, upsert_node, node_row,
}
use tailbus.Coord.Registry.Calls.{
  check_conflicts, register_node, remove_node, drop_stale, stale_ids, remove_stale_nodes,
  set_node_team,
}
use tailbus.Coord.Registry.Rows.{
  has_row-delete_handles, has_row-insert_handles, has_row-replace_handles,
}

pub data Op : Type 0 where
  register : NodeRecord → Op
  heartbeat : String → List String → Dict ServiceManifest → ℕ → Op
  remove : String → Op
  reap : ℕ → Op
  assign : String → String → Op

unfoldable pub step : Op → NodeStore → NodeStore
step (register rec) st = (register_node rec st).1
step (heartbeat node hs ms now) st = (update_heartbeat node hs ms now st).1
step (remove node) st = remove_node node st
step (reap cutoff) st = (remove_stale_nodes cutoff st).1
step (assign node team) st = set_node_team node team st

abbrev pub is_there : Option NodeRow → Bool
is_there none = false
is_there (some _) = true

-- No node twice, and no row of a node that is not there.
pub record IsSound (st : NodeStore) : Type 0 where
  pub nodes_once : IsMap st.nodes
  pub linked :
      (h node : String) → has_row h node st.handles ≡ true → is_there (lookup node st.nodes) ≡ true

stale_absent :
    (cutoff : ℕ) (node : String) (nodes : Dict NodeRow)
    → lookup node nodes ≡ none
    → (contains (stale_ids cutoff nodes) node ≡ false)
      × (lookup node (drop_stale cutoff nodes) ≡ none)
unfolding drop_stale stale_ids lookup contains
stale_absent cutoff node [] e = (refl, refl)
stale_absent cutoff node ((id, n) ∷ nodes) e =
    let other : (id == node) ≡ false = ground (arith, e) in
    let ih = stale_absent cutoff node nodes (ground (arith, e)) in
    (ground (arith, ih.0, other), ground (arith, ih.1, other))

lookup-drop_stale :
    (cutoff : ℕ) (node : String) (nodes : Dict NodeRow)
    → IsMap nodes
    → is_there (lookup node (drop_stale cutoff nodes))
      ≡ (not (contains (stale_ids cutoff nodes) node) && is_there (lookup node nodes))
unfolding drop_stale stale_ids lookup contains
lookup-drop_stale cutoff node [] once = refl
lookup-drop_stale cutoff node ((id, n) ∷ nodes) once =
    let ih = lookup-drop_stale cutoff node nodes once.1 in
    let absent = stale_absent cutoff id nodes once.0 in
    elim (Bool-cases (ltb n.last_heartbeat cutoff)) [
      | inl stale ↦ rw stale (ground (arith, ih, eq_iff id node, absent.1))
      | inr fresh ↦ rw fresh (ground (arith, ih, eq_iff id node, absent.0))
    ]

drop_stale-IsMap :
    (cutoff : ℕ) (nodes : Dict NodeRow) → IsMap nodes → IsMap (drop_stale cutoff nodes)
unfolding drop_stale
drop_stale-IsMap cutoff [] once = tt
drop_stale-IsMap cutoff ((id, n) ∷ nodes) once = elim (Bool-cases (ltb n.last_heartbeat cutoff)) [
  | inl stale ↦ rw stale (drop_stale-IsMap cutoff nodes once.1)
  | inr fresh ↦
      rw fresh ((stale_absent cutoff id nodes once.0).1, drop_stale-IsMap cutoff nodes once.1)
]

has_row-keep_fresh :
    (h node : String) (gone : List String) (rows : List HandleRow)
    → has_row h node (keep (λ r. not (contains gone r.node_id)) rows)
      ≡ (not (contains gone node) && has_row h node rows)
unfolding has_row
has_row-keep_fresh h node gone [] = ground arith
has_row-keep_fresh h node gone (r ∷ rows) =
    ground (arith, has_row-keep_fresh h node gone rows, eq_iff r.node_id node)

-- A write of a node's row, with whatever is written of its handles.
write-IsSound :
    (node : String) (n : NodeRow) (st : NodeStore) (rows : List HandleRow)
    → IsSound st
    → ((h a : String)
        → has_row h a rows ≡ true
        → (a == node) ≡ false
        → has_row h a st.handles ≡ true)
    → IsSound (record { nodes = insert node n st.nodes; handles = rows })
write-IsSound node n st rows s others = record {
  nodes_once = insert-IsMap node n st.nodes s.nodes_once;
  linked = λ h a row. elim (Bool-cases (a == node)) [
    | inl own ↦ ground (arith, own, lookup-insert node a n st.nodes, eq_iff a node, eq_iff node a)
    | inr other ↦ ground (
      arith,
      other,
      lookup-insert node a n st.nodes,
      s.linked h a (others h a row other),
      eq_iff a node,
      eq_iff node a,
    )
  ];
}

pub register-IsSound :
    (rec : NodeRecord) (st : NodeStore) → IsSound st → IsSound (register_node rec st).1
unfolding register_node upsert_node
register-IsSound rec st s =
    elim (Result-cases (check_conflicts rec.handles rec.node_id rec.team_id st)) [
      | inl (e, refused) ↦ rw refused s
      | inr (_, passed) ↦
          elim (Result-cases (
            insert_handles rec.node_id rec.handle_manifests rec.handles
              (delete_handles rec.node_id st.handles))) [
                | inl (e, dup) ↦ rw (passed, dup) s
                | inr (rows, done) ↦
                    rw (passed, done)
                      (write-IsSound rec.node_id (node_row rec) st rows s λ h a row other. ground (
                        arith,
                        row,
                        other,
                        has_row-insert_handles h a rec.node_id rec.handle_manifests rec.handles
                            (delete_handles rec.node_id st.handles) rows done,
                        has_row-delete_handles h a rec.node_id st.handles,
                      ))
              ]
    ]

heartbeat-IsSound :
    (node : String) (hs : List String) (ms : Dict ServiceManifest) (now : ℕ) (st : NodeStore)
    → IsSound st
    → IsSound (update_heartbeat node hs ms now st).1
unfolding update_heartbeat
heartbeat-IsSound node hs ms now st s = elim (Option-cases (lookup node st.nodes)) [
  | inl gone ↦ rw gone s
  | inr (n, e) ↦ rw e (
      write-IsSound node (record n { last_heartbeat = now }) st
        (replace_handles node ms hs (delete_handles node st.handles)) s
        λ h a row other. ground (
          arith,
          row,
          other,
          has_row-replace_handles h a node ms hs (delete_handles node st.handles),
          has_row-delete_handles h a node st.handles,
        ))
]

remove-IsSound : (node : String) (st : NodeStore) → IsSound st → IsSound (remove_node node st)
unfolding remove_node
remove-IsSound node st s = record {
  nodes_once = delete-IsMap node st.nodes s.nodes_once;
  linked = λ h a row. ground (
    arith,
    row,
    has_row-delete_handles h a node st.handles,
    lookup-delete node a st.nodes,
    s.linked h a,
    eq_iff a node,
    eq_iff node a,
  );
}

reap-IsSound : (cutoff : ℕ) (st : NodeStore) → IsSound st → IsSound (remove_stale_nodes cutoff st).1
unfolding remove_stale_nodes
reap-IsSound cutoff st s = record {
  nodes_once = drop_stale-IsMap cutoff st.nodes s.nodes_once;
  linked = λ h a row. ground (
    arith,
    row,
    has_row-keep_fresh h a (stale_ids cutoff st.nodes) st.handles,
    lookup-drop_stale cutoff a st.nodes s.nodes_once,
    s.linked h a,
  );
}

assign-IsSound :
    (node team : String) (st : NodeStore) → IsSound st → IsSound (set_node_team node team st)
unfolding set_node_team
assign-IsSound node team st s = elim (Option-cases (lookup node st.nodes)) [
  | inl gone ↦ rw gone s
  | inr (n, e) ↦
      rw e (write-IsSound node (record n { team_id = team }) st st.handles s λ h a row other. row)
]

-- Every operation on the tables keeps each node once, and each row of a handle with a node that is
-- there.
pub step-IsSound : (op : Op) (st : NodeStore) → IsSound st → IsSound (step op st)
unfolding step
step-IsSound (register rec) st s = register-IsSound rec st s
step-IsSound (heartbeat node hs ms now) st s = heartbeat-IsSound node hs ms now st s
step-IsSound (remove node) st s = remove-IsSound node st s
step-IsSound (reap cutoff) st s = reap-IsSound cutoff st s
step-IsSound (assign node team) st s = assign-IsSound node team st s

abbrev pub heard_since : ℕ → Option NodeRow → Bool
heard_since cutoff none = false
heard_since cutoff (some n) = not (ltb n.last_heartbeat cutoff)

heard-stale_ids :
    (cutoff : ℕ) (node : String) (nodes : Dict NodeRow)
    → IsMap nodes
    → heard_since cutoff (lookup node nodes)
      ≡ (not (contains (stale_ids cutoff nodes) node) && is_there (lookup node nodes))
unfolding stale_ids lookup contains
heard-stale_ids cutoff node [] once = refl
heard-stale_ids cutoff node ((id, n) ∷ nodes) once =
    let ih = heard-stale_ids cutoff node nodes once.1 in
    let absent = stale_absent cutoff id nodes once.0 in
    elim (Bool-cases (ltb n.last_heartbeat cutoff)) [
      | inl stale ↦ rw stale (ground (arith, ih, eq_iff id node, stale))
      | inr fresh ↦ rw fresh (ground (arith, ih, eq_iff id node, absent.0, fresh))
    ]

removed_count :
    (cutoff : ℕ) (nodes : Dict NodeRow)
    → length (stale_ids cutoff nodes) + length (drop_stale cutoff nodes) ≡ length nodes
unfolding stale_ids drop_stale
removed_count cutoff [] = omega arith
removed_count cutoff ((id, n) ∷ nodes) = elim (Bool-cases (ltb n.last_heartbeat cutoff)) [
  | inl stale ↦ rw stale (omega (arith, removed_count cutoff nodes))
  | inr fresh ↦ rw fresh (omega (arith, removed_count cutoff nodes))
]

-- In sound tables the removal of stale nodes leaves exactly the nodes heard of since, with just the
-- handles of these, and says how many have gone.
pub remove_stale_nodes-exact :
    (cutoff : ℕ) (st : NodeStore)
    → IsSound st
    → ((node : String)
        → is_there (lookup node (remove_stale_nodes cutoff st).1.nodes)
          ≡ heard_since cutoff (lookup node st.nodes))
      × ((h node : String)
          → has_row h node (remove_stale_nodes cutoff st).1.handles
            ≡ (has_row h node st.handles && heard_since cutoff (lookup node st.nodes)))
      × ((remove_stale_nodes cutoff st).0 + length (remove_stale_nodes cutoff st).1.nodes
          ≡ length st.nodes)
unfolding remove_stale_nodes
remove_stale_nodes-exact cutoff st s = (
  λ node.
      lookup-drop_stale cutoff node st.nodes s.nodes_once
      ∙ sym (heard-stale_ids cutoff node st.nodes s.nodes_once),
  λ h node. ground (
    arith,
    has_row-keep_fresh h node (stale_ids cutoff st.nodes) st.handles,
    heard-stale_ids cutoff node st.nodes s.nodes_once,
    s.linked h node,
  ),
  removed_count cutoff st.nodes,
)
