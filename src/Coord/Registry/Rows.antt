-- ===== src/Coord/Registry/Rows.antt =====
-- Which rows of the table of handles (internal/coord/store.go) an operation leaves, adds and finds.
use mathlib.Core.List.{append-nil, append_assoc}
use tailbus.Base.{
  ap, ◌≡◌, refl, ◌∙◌, String, true, false, ◌==◌, ◌&&◌, ◌||◌, not, none, some, List, [], ◌∷◌, ◌++◌,
  ok, Dict, lookup, keep, contains, arith, eq_iff, Bool-cases, inl, inr,
}
use tailbus.Resolver.{ServiceManifest}
use tailbus.Coord.Registry.{
  NodeRow, HandleRow, delete_handles, has_row, insert_handles, replace_handles, handle_row,
  handles_of,
}
use tailbus.Coord.Registry.Calls.{find_handle, find_in_team, in_team}

pub has_row-append :
    (h a : String) (xs ys : List HandleRow)
    → has_row h a (xs ++ ys) ≡ (has_row h a xs || has_row h a ys)
unfolding has_row
has_row-append h a [] ys = refl
has_row-append h a (r ∷ xs) ys = ground (arith, has_row-append h a xs ys)

pub has_row-delete_handles :
    (h a node : String) (rows : List HandleRow)
    → has_row h a (delete_handles node rows) ≡ (not (a == node) && has_row h a rows)
unfolding has_row delete_handles
has_row-delete_handles h a node [] = ground arith
has_row-delete_handles h a node (r ∷ rows) = ground (
  arith,
  has_row-delete_handles h a node rows,
  eq_iff r.node_id node,
  eq_iff r.node_id a,
  eq_iff a node,
)

-- One row more of a node, for one handle.
pub has_row-handle_row :
    (h a node k : String) (ms : Dict ServiceManifest)
    → has_row h a (handle_row node ms k ∷ []) ≡ ((a == node) && (k == h))
unfolding has_row
has_row-handle_row h a node k ms = ground (arith, eq_iff node a, eq_iff a node)

pub has_row-insert_handles :
    (h a node : String) (ms : Dict ServiceManifest) (hs : List String) (rows rows' : List HandleRow)
    → insert_handles node ms hs rows ≡ ok rows'
    → has_row h a rows' ≡ (has_row h a rows || ((a == node) && contains hs h))
unfolding insert_handles contains
has_row-insert_handles h a node ms [] rows rows' done = ground arith
has_row-insert_handles h a node ms (k ∷ hs) rows rows' done =
    elim (Bool-cases (has_row k node rows)) [
      | inl dup ↦ ground (arith, dup)
      | inr new ↦
          let rest : insert_handles node ms hs (rows ++ handle_row node ms k ∷ []) ≡ ok rows' =
            ground (arith, new) in
          ground (
            arith,
            has_row-insert_handles h a node ms hs (rows ++ handle_row node ms k ∷ []) rows' rest,
            has_row-append h a rows (handle_row node ms k ∷ []),
            has_row-handle_row h a node k ms,
          )
    ]

has_row-keep :
    (h a node k : String) (rows : List HandleRow)
    → has_row h a (keep (λ r. not (r.handle == k && r.node_id == node)) rows)
      ≡ (not (k == h && a == node) && has_row h a rows)
unfolding has_row
has_row-keep h a node k [] = ground arith
has_row-keep h a node k (r ∷ rows) = ground (
  arith,
  has_row-keep h a node k rows,
  eq_iff r.handle k,
  eq_iff r.handle h,
  eq_iff k h,
  eq_iff r.node_id node,
  eq_iff r.node_id a,
  eq_iff a node,
)

pub has_row-replace_handles :
    (h a node : String) (ms : Dict ServiceManifest) (hs : List String) (rows : List HandleRow)
    → has_row h a (replace_handles node ms hs rows)
      ≡ (has_row h a rows || ((a == node) && contains hs h))
unfolding replace_handles contains
has_row-replace_handles h a node ms [] rows = ground arith
has_row-replace_handles h a node ms (k ∷ hs) rows =
    let kept = keep (λ r. not (r.handle == k && r.node_id == node)) rows in
    ground (
      arith,
      has_row-replace_handles h a node ms hs (kept ++ handle_row node ms k ∷ []),
      has_row-append h a kept (handle_row node ms k ∷ []),
      has_row-handle_row h a node k ms,
      has_row-keep h a node k rows,
    )

-- What a look-up by the handle finds, and what it misses.
pub find_handle-none :
    (h a : String) (rows : List HandleRow) → find_handle h rows ≡ none → has_row h a rows ≡ false
unfolding find_handle has_row
find_handle-none h a [] e = refl
find_handle-none h a (r ∷ rows) e = ground (arith, find_handle-none h a rows)

pub find_in_team-none :
    (h a team : String) (nodes : Dict NodeRow) (rows : List HandleRow)
    → find_in_team h team nodes rows ≡ none
    → in_team team (lookup a nodes) ≡ true
    → has_row h a rows ≡ false
unfolding find_in_team has_row
find_in_team-none h a team nodes [] e t = refl
find_in_team-none h a team nodes (r ∷ rows) e t =
    ground (arith, find_in_team-none h a team nodes rows, eq_iff r.node_id a)

pub find_handle-some :
    (h a : String) (rows : List HandleRow) → find_handle h rows ≡ some a → has_row h a rows ≡ true
unfolding find_handle has_row
find_handle-some h a [] e = cc
find_handle-some h a (r ∷ rows) e = ground (arith, find_handle-some h a rows, eq_iff r.node_id a)

pub find_in_team-some :
    (h a team : String) (nodes : Dict NodeRow) (rows : List HandleRow)
    → find_in_team h team nodes rows ≡ some a
    → (has_row h a rows ≡ true) × (in_team team (lookup a nodes) ≡ true)
unfolding find_in_team has_row
find_in_team-some h a team nodes [] e = cc
find_in_team-some h a team nodes (r ∷ rows) e =
    elim (Bool-cases (r.handle == h && in_team team (lookup r.node_id nodes))) [
      | inl here ↦ ground (arith, here, eq_iff r.node_id a)
      | inr there ↦
          let ih = find_in_team-some h a team nodes rows (ground (arith, there)) in
          (ground (arith, ih.0), ih.1)
    ]

-- The handles of a node, after its rows have been written anew.
pub handles_of-append :
    (node : String) (xs ys : List HandleRow)
    → handles_of node (xs ++ ys) ≡ handles_of node xs ++ handles_of node ys
unfolding handles_of
handles_of-append node [] ys = refl
handles_of-append node (r ∷ xs) ys = ground (arith, handles_of-append node xs ys)

pub handles_of-delete_handles :
    (node : String) (rows : List HandleRow) → handles_of node (delete_handles node rows) ≡ []
unfolding handles_of delete_handles
handles_of-delete_handles node [] = refl
handles_of-delete_handles node (r ∷ rows) = ground (arith, handles_of-delete_handles node rows)

own_handle :
    (node : String) (ms : Dict ServiceManifest) (k : String)
    → handles_of node (handle_row node ms k ∷ []) ≡ k ∷ []
unfolding handles_of
own_handle node ms k = ground (arith, eq_iff node node)

pub handles_of-insert_handles :
    (node : String) (ms : Dict ServiceManifest) (hs : List String) (rows rows' : List HandleRow)
    → insert_handles node ms hs rows ≡ ok rows'
    → handles_of node rows' ≡ handles_of node rows ++ hs
unfolding insert_handles
handles_of-insert_handles node ms [] rows rows' done =
    ground (arith, append-nil (handles_of node rows))
handles_of-insert_handles node ms (k ∷ hs) rows rows' done =
    elim (Bool-cases (has_row k node rows)) [
      | inl dup ↦ ground (arith, dup)
      | inr new ↦
          let next = rows ++ handle_row node ms k ∷ [] in
          let rest : insert_handles node ms hs next ≡ ok rows' = ground (arith, new) in
          handles_of-insert_handles node ms hs next rows' rest
          ∙ ap (λ l. l ++ hs)
              (handles_of-append node rows (handle_row node ms k ∷ [])
                ∙ ap (λ l. handles_of node rows ++ l) (own_handle node ms k))
          ∙ append_assoc (handles_of node rows) (k ∷ []) hs
    ]
