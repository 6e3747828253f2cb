-- ===== src/Coord/Teams/Invites.antt =====
-- Who may call what, and how often an invite may be used (internal/coord/server.go,
-- internal/coord/store.go).
use tailbus.Base.{
  ℕ, ◌+◌, ◌-◌, ◌<◌, ◌≤◌, ◌≡◌, refl, subst, String, Bool, true, false, ◌==◌, ◌&&◌, eq_iff, Option,
  none, some, List, [], ◌∷◌, arith, inl, inr, ◌⊎◌, Bool-cases, Option-cases, eq_of_some, Result, ok,
  err, ltb, leb, if◌then◌else◌, Dict, lookup, insert, lookup-insert,
}
use tailbus.Coord.Teams.{
  Invite, TeamStore, TeamError, is_owner, create_invite, consume_invite, add_member, accept_invite,
  remove_member, known_role, update_role, delete_team, TeamCall, creates, invites_to, accepts,
  removes, sets_role, deletes, serve,
}

abbrev pub succeeded : Result TeamError (Unit {0}) → Bool
succeeded (ok _) = true
succeeded (err _) = false

-- The team whose owners alone may make the call.
abbrev pub guarded_team : TeamCall → Option String
guarded_team (invites_to code team uses ttl) = some team
guarded_team (removes team email) = some team
guarded_team (sets_role team email role) = some team
guarded_team (deletes team) = some team
guarded_team _ = none

-- To invite, to remove a member, to set a role and to delete a team is refused to one that is not an
-- owner of the team, and changes nothing.
pub non_owner_refused :
    (call : TeamCall) (now : ℕ) (caller team : String) (st : TeamStore)
    → guarded_team call ≡ some team
    → is_owner team caller st ≡ false
    → (succeeded (serve call now caller st).0 ≡ false) × ((serve call now caller st).1 ≡ st)
unfolding serve create_invite remove_member update_role delete_team
non_owner_refused (creates t name) now caller team st g n = cc
non_owner_refused (accepts code) now caller team st g n = cc
non_owner_refused (invites_to code t uses ttl) now caller team st g n =
    let o : is_owner t caller st ≡ false = rw (eq_of_some g) n in rw (o, create_invite) (refl, refl)
non_owner_refused (removes t email) now caller team st g n =
    let o : is_owner t caller st ≡ false = rw (eq_of_some g) n in rw (o, remove_member) (refl, refl)
non_owner_refused (sets_role t email role) now caller team st g n =
    let o : is_owner t caller st ≡ false = rw (eq_of_some g) n in
    elim (Bool-cases (known_role role)) [
      | inl k ↦ rw (k, o, update_role) (refl, refl)
      | inr k ↦ rw (k, update_role) (refl, refl)
    ]
non_owner_refused (deletes t) now caller team st g n =
    let o : is_owner t caller st ≡ false = rw (eq_of_some g) n in rw (o, delete_team) (refl, refl)

-- The acceptances of a code that succeed, among some.
unfoldable pub uses_of : String → List (String × ℕ × String) → TeamStore → ℕ
uses_of code [] st = 0
uses_of code ((c, now, caller) ∷ calls) st =
    let (result, st') = accept_invite c now caller st in
    let n = uses_of code calls st' in if (c == code) && succeeded result then n + 1 else n

-- What one acceptance does to the invite of a code.
abbrev Used : String → Invite → Bool → TeamStore → Type 0
Used code i counted st =
    ((counted ≡ false) × (lookup code st.invites ≡ some i))
    ⊎ ((counted ≡ true)
        × (i.use_count < i.max_uses)
        × (lookup code st.invites ≡ some (record i { use_count = i.use_count + 1 })))

same_invite :
    (code c : String) (i j : Invite) (d : Dict Invite)
    → lookup code d ≡ some i
    → lookup c d ≡ some j
    → (c == code) ≡ true
    → j ≡ i
same_invite code c i j d f e q = ground (arith, eq_iff c code, f, e, q)

accept-Used :
    (code c : String) (now : ℕ) (caller : String) (i : Invite) (st : TeamStore)
    → lookup code st.invites ≡ some i
    → Used code i
        ((c == code) && succeeded (accept_invite c now caller st).0)
        (accept_invite c now caller st).1
unfolding accept_invite consume_invite add_member
accept-Used code c now caller i st found = elim (Option-cases (lookup c st.invites)) [
  | inl e ↦ rw (e, accept_invite, consume_invite) (inl (ground arith, found))
  | inr (j, e) ↦ elim (Bool-cases (ltb j.expires_at now)) [
    | inl late ↦ rw (e, late, accept_invite, consume_invite) (inl (ground arith, found))
    | inr fresh ↦ elim (Bool-cases (leb j.max_uses j.use_count)) [
      | inl used ↦ rw (e, fresh, used, accept_invite, consume_invite) (inl (ground arith, found))
      | inr left ↦
          rw (e, fresh, left, accept_invite, consume_invite)
            (elim (Bool-cases (c == code)) [
              | inr other ↦ inl (
                ground (arith, other),
                ground (
                  arith,
                  lookup-insert c code (record j { use_count = j.use_count + 1 }) st.invites,
                  other,
                  found,
                ),
              )
              | inl same ↦
                  let bumped : Invite = record j { use_count = j.use_count + 1 } in
                  let one : j ≡ i = same_invite code c i j st.invites found e same in
                  let moved =
                    subst
                      (λ v.
                        (v.use_count < v.max_uses)
                        × (lookup code (insert c bumped st.invites)
                            ≡ some (record v { use_count = v.use_count + 1 })))
                      one
                      (
                        ground (arith, left),
                        ground (arith, lookup-insert c code bumped st.invites, same),
                      ) in
                  inr (ground (arith, same), moved.0, moved.1)
            ])
    ]
  ]
]

-- However often a code is offered, by whom and when, and whatever other codes are, the acceptances
-- that succeed are at most the uses that the invite has left.
pub uses_bounded :
    (code : String) (calls : List (String × ℕ × String)) (i : Invite) (st : TeamStore)
    → lookup code st.invites ≡ some i
    → uses_of code calls st ≤ i.max_uses - i.use_count
unfolding uses_of
uses_bounded code [] i st found = omega arith
uses_bounded code ((c, now, caller) ∷ calls) i st found =
    elim (accept-Used code c now caller i st found) [
      | inl (skipped, same) ↦
          rw skipped (uses_bounded code calls i (accept_invite c now caller st).1 same)
      | inr (taken, room, next) ↦
          let rest =
            uses_bounded code calls (record i { use_count = i.use_count + 1 })
              (accept_invite c now caller st).1 next in
          rw taken (omega (arith, rest, room))
    ]
