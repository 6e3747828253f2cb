-- ===== src/Coord/Registry/Unique.antt =====
-- Whether a handle has one node in each team (internal/coord/registry.go): registration takes care
-- of it, and the heartbeat does not.
use tailbus.Base.{
  ◌≡◌, ◌≢◌, sym, ◌∙◌, String, true, false, ◌==◌, Option, none, some, List, [], ◌∷◌, Result-cases,
  Result, ok, err, lookup, insert, contains, arith, eq_iff, Bool-cases, Option-cases, inl, inr, ◌⊎◌,
  lookup-insert,
}
use tailbus.Coord.Registry.{
  NodeRow, HandleRow, NodeStore, NodeRecord, RegistryError, delete_handles, has_row, insert_handles,
  upsert_node, node_row,
}
use tailbus.Coord.Registry.Calls.{
  find_handle, find_in_team, in_team, lookup_handle, lookup_handle_in_team, check_conflicts,
  register_node, conflict, load, map_row,
}
use tailbus.Coord.Registry.Rows.{
  has_row-delete_handles, has_row-insert_handles, find_handle-none, find_in_team-none,
  find_in_team-some, find_handle-some,
}

-- A node serves a handle in a team.
abbrev pub Serves : String → String → String → NodeStore → Type 0
Serves h team node st =
    (has_row h node st.handles ≡ true) × (in_team team (lookup node st.nodes) ≡ true)

-- In each team a handle has one node.
abbrev pub IsUnique : NodeStore → Type 0
IsUnique st = (h team a b : String) → Serves h team a st → Serves h team b st → a ≡ b

-- A node without a team may not come from one: then the look-up goes over all teams, and may find
-- the node's own row first.
abbrev pub Stays : NodeRecord → NodeStore → Type 0
Stays rec st =
    (n : NodeRow) → lookup rec.node_id st.nodes ≡ some n → rec.team_id ≡ "" → n.team_id ≡ ""

-- What the look-up of the check says about whoever serves the handle in the team already.
abbrev Free : String → NodeRecord → NodeStore → Type 0
Free h rec st = (b : String) → Serves h rec.team_id b st → b ≡ rec.node_id

-- A node that the check finds and accepts is the registering one.
found_own :
    (h node a : String) (found : Option NodeRow) (rows : List HandleRow)
    (rest : Result RegistryError (Unit {0}))
    → conflict h node (load a found rows) rest ≡ ok tt
    → a ≡ node
found_own h node a none rows rest passed = cc
found_own h node a (some n) rows rest passed = ground (arith, eq_iff a node, passed)

-- Past the look-up, the check goes on with the other handles.
conflict_rest :
    (h node : String) (r : Result RegistryError (Option NodeRecord))
    (rest : Result RegistryError (Unit {0}))
    → conflict h node r rest ≡ ok tt
    → rest ≡ ok tt
conflict_rest h node (err e) rest passed = cc
conflict_rest h node (ok none) rest passed = passed
conflict_rest h node (ok (some rec)) rest passed = ground (arith, passed)

module _ (rec : NodeRecord) (st : NodeStore) (unique : IsUnique st) (stays : Stays rec st) where
  scoped-Free :
      (h : String) (rest : Result RegistryError (Unit {0}))
      → (rec.team_id == "") ≡ false
      → conflict h rec.node_id (lookup_handle_in_team h rec.team_id st) rest ≡ ok tt
      → Free h rec st
  unfolding lookup_handle_in_team
  scoped-Free h rest scoped passed b serves =
      elim (Option-cases (find_in_team h rec.team_id st.nodes st.handles)) [
        | inl e ↦
            ground
              (arith, serves.0, find_in_team-none h b rec.team_id st.nodes st.handles e serves.1)
        | inr (a, e) ↦
            let own : a ≡ rec.node_id =
              found_own h rec.node_id a (lookup a st.nodes) st.handles rest
                (rw (scoped, e) at passed) in
            let found = find_in_team-some h a rec.team_id st.nodes st.handles e in
            unique h rec.team_id b a serves found ∙ own
      ]

  in_team_stays :
      (n : NodeRow)
      → lookup rec.node_id st.nodes ≡ some n
      → (rec.team_id == "") ≡ true
      → in_team rec.team_id (lookup rec.node_id st.nodes) ≡ true
  in_team_stays n e scoped = ground (
    arith,
    e,
    stays n e ((eq_iff rec.team_id "").0 scoped),
    eq_iff rec.team_id "",
    eq_iff n.team_id rec.team_id,
  )

  personal-Free :
      (h : String) (rest : Result RegistryError (Unit {0}))
      → (rec.team_id == "") ≡ true
      → conflict h rec.node_id (lookup_handle_in_team h rec.team_id st) rest ≡ ok tt
      → Free h rec st
  unfolding lookup_handle_in_team lookup_handle
  personal-Free h rest scoped passed b serves = elim (Option-cases (find_handle h st.handles)) [
    | inl e ↦ ground (arith, serves.0, find_handle-none h b st.handles e)
    | inr (a, e) ↦
        let passed' : conflict h rec.node_id (load a (map_row (lookup a st.nodes)) st.handles) rest
            ≡ ok tt =
          (rw (scoped, e) at passed) in
        let own : a ≡ rec.node_id =
          found_own h rec.node_id a (map_row (lookup a st.nodes)) st.handles rest passed' in
        elim (Option-cases (lookup rec.node_id st.nodes)) [
          | inl gone ↦ absurd (missing a rest own gone passed')
          | inr (n, e') ↦
              unique h rec.team_id b rec.node_id serves
                (ground (arith, own, find_handle-some h a st.handles e), in_team_stays n e' scoped)
        ]
  ]
    where
      missing :
          (a : String) (rest : Result RegistryError (Unit {0}))
          → a ≡ rec.node_id
          → lookup rec.node_id st.nodes ≡ none
          → conflict h rec.node_id (load a (map_row (lookup a st.nodes)) st.handles) rest ≡ ok tt
          → ⊥
      missing a rest own gone passed = ground (arith, own, gone, passed)

  check-Free :
      (hs : List String)
      → check_conflicts hs rec.node_id rec.team_id st ≡ ok tt
      → (h : String) → contains hs h ≡ true
      → Free h rec st
  unfolding check_conflicts contains
  check-Free [] passed h listed = cc
  check-Free (k ∷ hs) passed h listed = elim (Bool-cases (k == h)) [
    | inl same ↦ rw (← (eq_iff k h).0 same) (elim (Bool-cases (rec.team_id == "")) [
      | inl personal ↦ personal-Free k _ personal passed
      | inr scoped ↦ scoped-Free k _ scoped passed
    ])
    | inr other ↦
        check-Free hs (conflict_rest k rec.node_id _ _ passed) h (ground (arith, other, listed))
  ]

-- Who serves a handle once a node's rows and its own row have been written.
module _ (rec : NodeRecord) (st : NodeStore) where
  written : List HandleRow → NodeStore
  written rows = record { nodes = insert rec.node_id (node_row rec) st.nodes; handles = rows }

  written-Serves :
      (h team b : String) (rows : List HandleRow)
      → insert_handles rec.node_id rec.handle_manifests rec.handles
          (delete_handles rec.node_id st.handles)
        ≡ ok rows
      → Serves h team b (written rows)
      → ((b ≡ rec.node_id) × (contains rec.handles h ≡ true) × (team ≡ rec.team_id))
        ⊎ ((b ≢ rec.node_id) × Serves h team b st)
  unfolding written
  written-Serves h team b rows done (row, here) = elim (Bool-cases (b == rec.node_id)) [
    | inl own ↦ inl (
      (eq_iff b rec.node_id).0 own,
      ground (
        arith,
        own,
        row,
        has_row-insert_handles h b rec.node_id rec.handle_manifests rec.handles
            (delete_handles rec.node_id st.handles) rows done,
        has_row-delete_handles h b rec.node_id st.handles,
      ),
      ground (
        arith,
        own,
        here,
        lookup-insert rec.node_id b (node_row rec) st.nodes,
        eq_iff rec.node_id b,
        eq_iff b rec.node_id,
        eq_iff rec.team_id team,
      ),
    )
    | inr other ↦ inr (
      (λ e. ground (arith, other, e, eq_iff b rec.node_id)),
      (
        ground (
          arith,
          other,
          row,
          has_row-insert_handles h b rec.node_id rec.handle_manifests rec.handles
              (delete_handles rec.node_id st.handles) rows done,
          has_row-delete_handles h b rec.node_id st.handles,
        ),
        ground (
          arith,
          other,
          here,
          lookup-insert rec.node_id b (node_row rec) st.nodes,
          eq_iff rec.node_id b,
          eq_iff b rec.node_id,
        ),
      ),
    )
  ]

  written-IsUnique :
      (rows : List HandleRow)
      → insert_handles rec.node_id rec.handle_manifests rec.handles
          (delete_handles rec.node_id st.handles)
        ≡ ok rows
      → IsUnique st
      → ((h : String) → contains rec.handles h ≡ true → Free h rec st)
      → IsUnique (written rows)
  written-IsUnique rows done unique free h team a b sa sb =
      elim (written-Serves h team a rows done sa) [
        | inl (a_own, listed, team_own) ↦ elim (written-Serves h team b rows done sb) [
          | inl (b_own, _, _) ↦ a_own ∙ sym b_own
          | inr (b_ne, old) ↦ absurd (b_ne (free h listed b (rw team_own at old)))
        ]
        | inr (a_ne, old_a) ↦ elim (written-Serves h team b rows done sb) [
          | inl (b_own, listed, team_own) ↦ absurd (a_ne (free h listed a (rw team_own at old_a)))
          | inr (b_ne, old_b) ↦ unique h team a b old_a old_b
        ]
      ]

-- If each handle has one node in each team, it still has after a node has asked to be registered,
-- whether it is or not. A node that asks to be in no team may not be in one.
pub register_node-IsUnique :
    (rec : NodeRecord) (st : NodeStore)
    → IsUnique st
    → Stays rec st
    → IsUnique (register_node rec st).1
unfolding register_node upsert_node written
register_node-IsUnique rec st unique stays =
    elim (Result-cases (check_conflicts rec.handles rec.node_id rec.team_id st)) [
      | inl (e, refused) ↦ rw refused unique
      | inr (_, passed) ↦
          elim (Result-cases (
            insert_handles rec.node_id rec.handle_manifests rec.handles
              (delete_handles rec.node_id st.handles))) [
                | inl (e, dup) ↦ rw (passed, dup) unique
                | inr (rows, done) ↦
                    rw (passed, done)
                      (written-IsUnique rec st rows done unique
                        (check-Free rec st unique stays rec.handles passed))
              ]
    ]
