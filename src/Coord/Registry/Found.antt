-- ===== src/Coord/Registry/Found.antt =====
-- What a registration and a heartbeat do to the look-up of a handle (internal/coord/registry.go,
-- internal/coord/store.go).
use tailbus.Base.{
  eq_refl, ap, ℕ, ◌≡◌, ◌≢◌, refl, sym, ◌∙◌, String, true, false, some, List, [], ◌∷◌, ◌++◌,
  Result-cases, ok, Dict, lookup, insert, contains, arith, eq_iff, Option-cases, inl, inr,
  lookup-insert, lookup-insert_self, str_eq_ne,
}
use tailbus.Resolver.{ServiceManifest}
use tailbus.Coord.Registry.{
  NodeRow, HandleRow, NodeStore, NodeRecord, delete_handles, has_row, insert_handles, handle_row,
  update_heartbeat, upsert_node, node_row, plain_manifest,
}
use tailbus.Coord.Registry.Calls.{
  find_handle, find_in_team, in_team, lookup_handle, lookup_handle_in_team, check_conflicts,
  register_node, record_of,
}
use tailbus.Coord.Registry.Rows.{
  has_row-append, has_row-handle_row, has_row-delete_handles, has_row-insert_handles,
  has_row-replace_handles, find_in_team-none, find_in_team-some, handles_of-insert_handles,
  handles_of-delete_handles,
}
use tailbus.Coord.Registry.Unique.{Serves, IsUnique, register_node-IsUnique}

-- The node that serves a handle in a team is the one that is found.
pub find-Serves :
    (h team a : String) (st : NodeStore)
    → IsUnique st
    → Serves h team a st
    → find_in_team h team st.nodes st.handles ≡ some a
find-Serves h team a st unique serves =
    elim (Option-cases (find_in_team h team st.nodes st.handles)) [
      | inl e ↦ ground (arith, serves.0, find_in_team-none h a team st.nodes st.handles e serves.1)
      | inr (b, e) ↦
          e ∙ ap some (unique h team b a (find_in_team-some h b team st.nodes st.handles e) serves)
    ]

-- What a registration that is accepted has written.
pub registered :
    (rec : NodeRecord) (st st' : NodeStore)
    → register_node rec st ≡ (ok tt, st')
    → (rows : List HandleRow) × (insert_handles rec.node_id rec.handle_manifests rec.handles
          (delete_handles rec.node_id st.handles)
        ≡ ok rows)
      × (st' ≡ record { nodes = insert rec.node_id (node_row rec) st.nodes; handles = rows })
unfolding register_node upsert_node
registered rec st st' done =
    elim (Result-cases (check_conflicts rec.handles rec.node_id rec.team_id st)) [
      | inl (e, refused) ↦ ground (arith, refused, done)
      | inr (_, passed) ↦
          elim (Result-cases (
            insert_handles rec.node_id rec.handle_manifests rec.handles
              (delete_handles rec.node_id st.handles))) [
                | inl (e, dup) ↦ ground (arith, passed, dup, done)
                | inr (rows, kept) ↦ (rows, kept, ground (arith, passed, kept, done))
              ]
    ]

pub register_node-Serves :
    (rec : NodeRecord) (st st' : NodeStore) (h : String)
    → register_node rec st ≡ (ok tt, st')
    → contains rec.handles h ≡ true
    → (lookup rec.node_id st'.nodes ≡ some (node_row rec)) × Serves h rec.team_id rec.node_id st'
register_node-Serves rec st st' h done listed =
    let (rows, kept, same) = registered rec st st' done in
    let row : lookup rec.node_id st'.nodes ≡ some (node_row rec) =
      rw same (lookup-insert_self rec.node_id (node_row rec) st.nodes) in
    (
      row,
      (
        rw
            (
              same,
              has_row-insert_handles h rec.node_id rec.node_id rec.handle_manifests rec.handles
                  (delete_handles rec.node_id st.handles) rows kept,
              listed,
            )
            (ground (arith, eq_iff rec.node_id rec.node_id)),
        rw row (ground (arith, eq_iff rec.team_id rec.team_id)),
      ),
    )

-- Where each handle has one node in each team, a node that has been registered in a team is what a
-- look-up finds for each of its handles: with its key, address and time, and just its handles.
pub lookup-register_node :
    (rec : NodeRecord) (st st' : NodeStore) (h : String)
    → IsUnique st
    → rec.team_id ≢ ""
    → register_node rec st ≡ (ok tt, st')
    → contains rec.handles h ≡ true
    → (found : NodeRecord) × (lookup_handle_in_team h rec.team_id st' ≡ ok (some found))
      × (found.node_id ≡ rec.node_id)
      × (found.public_key ≡ rec.public_key)
      × (found.advertise_addr ≡ rec.advertise_addr)
      × (found.last_heartbeat ≡ rec.last_heartbeat)
      × (found.handles ≡ rec.handles)
unfolding lookup_handle_in_team
lookup-register_node rec st st' h unique scoped done listed =
    let (rows, kept, same) = registered rec st st' done in
    let unique' : IsUnique st' =
      (rw done at (register_node-IsUnique rec st unique (λ n _ e. absurd (scoped e)))) in
    let (row, serves) = register_node-Serves rec st st' h done listed in
    (
      record_of rec.node_id (node_row rec) plain_manifest st'.handles,
      rw
          (
            str_eq_ne rec.team_id "" scoped,
            find-Serves h rec.team_id rec.node_id st' unique' serves,
            row,
          )
          refl,
      refl,
      refl,
      refl,
      refl,
      rw
          (
            same,
            handles_of-insert_handles rec.node_id rec.handle_manifests rec.handles
                (delete_handles rec.node_id st.handles) rows kept,
            handles_of-delete_handles rec.node_id st.handles,
          )
          refl,
    )

-- A heartbeat is not checked: one that names a handle which another node serves in the team of its
-- node gives the handle two nodes there.
pub heartbeat_steals :
    (h team node owner : String) (hs : List String) (ms : Dict ServiceManifest) (now : ℕ)
    (st : NodeStore)
    → Serves h team owner st
    → in_team team (lookup node st.nodes) ≡ true
    → node ≢ owner
    → contains hs h ≡ true
    → ¬ IsUnique (update_heartbeat node hs ms now st).1
unfolding update_heartbeat
heartbeat_steals h team node owner hs ms now st serves here ne listed unique =
    elim (Option-cases (lookup node st.nodes)) [
      | inl gone ↦ ground (arith, gone, here)
      | inr (n, e) ↦
          let n' = record n { last_heartbeat = now } in
          let both = rw e at unique in
          ne (
            both h team node owner
              (
                ground (
                  arith,
                  has_row-replace_handles h node node ms hs (delete_handles node st.handles),
                  listed,
                  eq_iff node node,
                ),
                ground (arith, lookup-insert_self node n' st.nodes, here, e),
              )
              (
                ground (
                  arith,
                  has_row-replace_handles h owner node ms hs (delete_handles node st.handles),
                  has_row-delete_handles h owner node st.handles,
                  serves.0,
                  str_eq_ne owner node (λ q. ne (sym q)),
                ),
                ground (
                  arith,
                  lookup-insert node owner n' st.nodes,
                  serves.1,
                  str_eq_ne node owner ne,
                ),
              ))
    ]

module _ (rec : NodeRecord) (h : String) (st : NodeStore) (personal : rec.team_id ≡ "")
    (one : rec.handles ≡ h ∷ []) (first : find_handle h st.handles ≡ some rec.node_id) where
  leaving_passes :
      (n : NodeRow)
      → lookup rec.node_id st.nodes ≡ some n
      → check_conflicts rec.handles rec.node_id rec.team_id st ≡ ok tt
  unfolding check_conflicts lookup_handle_in_team lookup_handle
  leaving_passes n e = rw (one, personal, first, e, eq_refl rec.node_id) refl

  leaving_rows :
      (rows : List HandleRow)
      → insert_handles rec.node_id rec.handle_manifests rec.handles
          (delete_handles rec.node_id rows)
        ≡ ok (delete_handles rec.node_id rows ++ handle_row rec.node_id rec.handle_manifests h ∷ [])
  unfolding insert_handles
  leaving_rows rows =
      let gone : has_row h rec.node_id (delete_handles rec.node_id rows) ≡ false = ground (
        arith,
        has_row-delete_handles h rec.node_id rec.node_id rows,
        eq_iff rec.node_id rec.node_id,
      ) in
      rw (one, gone) refl

-- A node that leaves its team for none may take a handle that another node without a team serves: the
-- look-up without a team goes over all teams, and its own row may come first.
pub leaving_steals :
    (rec : NodeRecord) (h owner : String) (st : NodeStore) (n : NodeRow)
    → rec.team_id ≡ ""
    → rec.handles ≡ h ∷ []
    → find_handle h st.handles ≡ some rec.node_id
    → lookup rec.node_id st.nodes ≡ some n
    → Serves h "" owner st
    → rec.node_id ≢ owner
    → ((register_node rec st).0 ≡ ok tt) × (¬ IsUnique (register_node rec st).1)
unfolding register_node upsert_node
leaving_steals rec h owner st n personal one first e serves ne =
    let passed = leaving_passes rec h st personal one first n e in
    let rows = delete_handles rec.node_id st.handles in
    let row = handle_row rec.node_id rec.handle_manifests h in
    rw (passed, leaving_rows rec h st personal one first st.handles)
      (
        refl,
        λ unique. ne (
            unique h "" rec.node_id owner
              (
                ground (
                  arith,
                  has_row-append h rec.node_id rows (row ∷ []),
                  has_row-handle_row h rec.node_id rec.node_id h rec.handle_manifests,
                  eq_iff rec.node_id rec.node_id,
                  eq_iff h h,
                ),
                ground (
                  arith,
                  lookup-insert_self rec.node_id (node_row rec) st.nodes,
                  personal,
                  eq_iff rec.team_id "",
                ),
              )
              (
                ground (
                  arith,
                  has_row-append h owner rows (row ∷ []),
                  has_row-delete_handles h owner rec.node_id st.handles,
                  serves.0,
                  str_eq_ne owner rec.node_id (λ q. ne (sym q)),
                ),
                ground (
                  arith,
                  lookup-insert rec.node_id owner (node_row rec) st.nodes,
                  serves.1,
                  str_eq_ne rec.node_id owner ne,
                ),
              )),
      )
