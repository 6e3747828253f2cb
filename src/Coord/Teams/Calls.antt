-- ===== src/Coord/Teams/Calls.antt =====
-- Which calls keep an owner in every team (internal/coord/server.go).
use tailbus.Base.{
  ℕ, ◌+◌, ◌≡◌, refl, ◌∙◌, String, Bool, true, false, ◌==◌, ◌||◌, ◌&&◌, not, eq_iff, eq_refl, none,
  some, arith, inl, inr, Bool-cases, Option-cases, ok, ltb, leb, Dict, lookup, insert, delete,
  lookup-insert, lookup-delete, IsMap, insert-IsMap, delete-IsMap,
}
use tailbus.Coord.Teams.{
  Team, Invite, TeamStore, rows, members_of, is_owner, set_members, name_taken, present,
  create_team, create_invite, consume_invite, add_member, accept_invite, remove_member, owner_count,
  known_role, update_role, delete_team, TeamCall, creates, invites_to, accepts, removes, sets_role,
  deletes, serve,
}
use tailbus.Coord.Teams.Owners.{
  HasOwners, owns, members-set, other_owner, set_members-HasOwners, insert_other, delete_other,
  owner-set_same, owner-set_other, owns-insert_self, owns-insert_member, present_other,
}

add_member-HasOwners :
    (team caller : String) (st : TeamStore)
    → is_owner team caller st ≡ false
    → HasOwners st
    → HasOwners (add_member team caller "member" st)
unfolding add_member
add_member-HasOwners team caller st n w =
    set_members-HasOwners team (insert caller "member" (members_of team st)) st w
      (insert-IsMap caller "member" (members_of team st) (w.keyed team))
      (λ p.
        let r = w.owned team p in
        (
          r.0,
          ground (
            arith,
            lookup-insert caller r.0 "member" (members_of team st),
            eq_iff caller r.0,
            r.1,
            n,
          ),
        ))

remove-HasOwners :
    (team email caller : String) (st : TeamStore)
    → HasOwners st
    → HasOwners (remove_member team email caller st).1
unfolding remove_member
remove-HasOwners team email caller st w = elim (Bool-cases (is_owner team caller st)) [
  | inr o ↦ rw (o, remove_member) w
  | inl o ↦ elim (Bool-cases (email == caller)) [
    | inl same ↦ rw (o, same, remove_member) w
    | inr other ↦ elim (Bool-cases (present (lookup email (members_of team st)))) [
      | inr gone ↦ rw (o, other, gone, remove_member) w
      | inl there ↦
          rw (o, other, there, remove_member)
            (set_members-HasOwners team (delete email (members_of team st)) st w
              (delete-IsMap email (members_of team st) (w.keyed team))
              (λ p. (caller, delete_other email caller (members_of team st) other o)))
    ]
  ]
]

-- The caller's own demotion leaves another owner; any other change leaves the caller.
update-HasOwners :
    (team email role caller : String) (st : TeamStore)
    → HasOwners st
    → HasOwners (update_role team email role caller st).1
unfolding update_role
update-HasOwners team email role caller st w = elim (Bool-cases (known_role role)) [
  | inr k ↦ rw (k, update_role) w
  | inl k ↦ elim (Bool-cases (is_owner team caller st)) [
    | inr o ↦ rw (k, o, update_role) w
    | inl o ↦
        elim (Bool-cases (
          (email == caller && not (role == "owner")) && leb (owner_count (members_of team st)) 1)) [
            | inl last ↦ rw (k, o, last, update_role) w
            | inr safe ↦ elim (Bool-cases (present (lookup email (members_of team st)))) [
              | inr gone ↦ rw (k, o, safe, gone, update_role) w
              | inl there ↦
                  rw (k, o, safe, there, update_role)
                    (set_members-HasOwners team (insert email role (members_of team st)) st w
                      (insert-IsMap email role (members_of team st) (w.keyed team))
                      (λ p. remaining (members_of team st) (w.keyed team) o safe))
            ]
          ]
  ]
]
  where
    remaining :
        (m : Dict String)
        → IsMap m
        → owns caller m ≡ true
        → ((email == caller && not (role == "owner")) && leb (owner_count m) 1) ≡ false
        → (e : String) × (owns e (insert email role m) ≡ true)
    remaining m h o safe = elim (Bool-cases (email == caller)) [
      | inr other ↦ (caller, insert_other email caller role m other o)
      | inl same ↦ elim (Bool-cases (role == "owner")) [
        | inl own ↦
            (email, ground (arith, lookup-insert email email role m, eq_iff email email, own))
        | inr mem ↦
            let r = other_owner email m h (ground (arith, same, mem, safe)) in
            (r.0, insert_other email r.0 role m r.2 r.1)
      ]
    ]

create_team-HasOwners :
    (team name caller : String) (st : TeamStore)
    → HasOwners st
    → HasOwners (create_team team name caller st).1
unfolding create_team
create_team-HasOwners team name caller st w =
    elim (Bool-cases (present (lookup team st.teams) || name_taken name st.teams)) [
      | inl e ↦ rw (e, create_team) w
      | inr e ↦ rw (e, create_team) (created (record { name = name; created_by = caller }))
    ]
  where
    created :
        (v : Team)
        → HasOwners (
            set_members team
              (insert caller "owner" (members_of team st))
              (record st { teams = insert team v st.teams }))
    created v =
        let m = insert caller "owner" (members_of team st) in
        let st' = record st { teams = insert team v st.teams } in
        record {
          owned = λ t p. elim (Bool-cases (team == t)) [
            | inl q ↦ (
              caller,
              owner-set_same team t caller m st' q (owns-insert_self caller (members_of team st)),
            )
            | inr q ↦
                let r = w.owned t (present_other team t v st.teams q p) in
                (r.0, owner-set_other team t r.0 m st' q r.1)
          ];
          keyed = λ t. elim (Bool-cases (team == t)) [
            | inl q ↦
                rw (members-set team t m st', q)
                  (insert-IsMap caller "owner" (members_of team st) (w.keyed team))
            | inr q ↦ rw (members-set team t m st', q) (w.keyed t)
          ];
        }

delete_team-HasOwners :
    (team caller : String) (st : TeamStore)
    → HasOwners st
    → HasOwners (delete_team team caller st).1
unfolding delete_team
delete_team-HasOwners team caller st w = elim (Bool-cases (is_owner team caller st)) [
  | inr o ↦ rw (o, delete_team) w
  | inl o ↦ elim (Bool-cases (present (lookup team st.teams))) [
    | inr gone ↦ rw (o, gone, delete_team) w
    | inl there ↦
        rw (o, there, delete_team)
          (record {
            owned = λ t p.
                let r = w.owned t (present_before t p) in (r.0, still t r.0 (differs t p) r.1);
            keyed = λ t. elim (Bool-cases (team == t)) [
              | inl q ↦ rw (lookup-delete team t st.members, q) tt
              | inr q ↦ rw (lookup-delete team t st.members, q) (w.keyed t)
            ];
          })
  ]
]
  where
    present_before :
        (t : String)
        → present (lookup t (delete team st.teams)) ≡ true
        → present (lookup t st.teams) ≡ true
    present_before t p = ground (arith, lookup-delete team t st.teams, p)

    differs : (t : String) → present (lookup t (delete team st.teams)) ≡ true → (team == t) ≡ false
    differs t p = ground (arith, lookup-delete team t st.teams, p)

    still :
        (t e : String)
        → (team == t) ≡ false
        → owns e (members_of t st) ≡ true
        → owns e (rows (lookup t (delete team st.members))) ≡ true
    still t e q o = ground (arith, lookup-delete team t st.members, q, o)

-- Whether the call is an acceptance by an owner of the invite's team.
abbrev pub owner_accepts : TeamCall → String → TeamStore → Bool
owner_accepts (accepts code) caller st = elim (lookup code st.invites) [
  | none ↦ false
  | some i ↦ is_owner i.team_id caller st
]
owner_accepts _ caller st = false

accept-HasOwners :
    (now : ℕ) (code caller : String) (st : TeamStore)
    → owner_accepts (accepts code) caller st ≡ false
    → HasOwners st
    → HasOwners (accept_invite code now caller st).1
unfolding accept_invite consume_invite
accept-HasOwners now code caller st n w = elim (Option-cases (lookup code st.invites)) [
  | inl e ↦ rw (e, accept_invite, consume_invite) w
  | inr (i, e) ↦ elim (Bool-cases (ltb i.expires_at now)) [
    | inl late ↦ rw (e, late, accept_invite, consume_invite) w
    | inr fresh ↦ elim (Bool-cases (leb i.max_uses i.use_count)) [
      | inl used ↦ rw (e, fresh, used, accept_invite, consume_invite) w
      | inr left ↦
          rw (e, fresh, left, accept_invite, consume_invite)
            (add_member-HasOwners i.team_id caller
              (record st {
                invites = insert code (record i { use_count = i.use_count + 1 }) st.invites;
              })
              (rw (e, owner_accepts) at n) (record { owned = w.owned; keyed = w.keyed }))
    ]
  ]
]

create_invite-HasOwners :
    (code team : String) (uses ttl now : ℕ) (caller : String) (st : TeamStore)
    → HasOwners st
    → HasOwners (create_invite code team uses ttl now caller st).1
unfolding create_invite
create_invite-HasOwners code team uses ttl now caller st w =
    elim (Bool-cases (is_owner team caller st)) [
      | inr o ↦ rw (o, create_invite) w
      | inl o ↦ elim (Bool-cases (present (lookup code st.invites))) [
        | inl p ↦ rw (o, p, create_invite) w
        | inr p ↦ rw (o, p, create_invite) (record { owned = w.owned; keyed = w.keyed })
      ]
    ]

-- Every call keeps an owner in every team, except that of an owner who accepts an invite to the
-- team.
pub serve-HasOwners :
    (call : TeamCall) (now : ℕ) (caller : String) (st : TeamStore)
    → owner_accepts call caller st ≡ false
    → HasOwners st
    → HasOwners (serve call now caller st).1
unfolding serve
serve-HasOwners (creates team name) now caller st n w = create_team-HasOwners team name caller st w
serve-HasOwners (invites_to code team uses ttl) now caller st n w =
    create_invite-HasOwners code team uses ttl now caller st w
serve-HasOwners (accepts code) now caller st n w = accept-HasOwners now code caller st n w
serve-HasOwners (removes team email) now caller st n w = remove-HasOwners team email caller st w
serve-HasOwners (sets_role team email role) now caller st n w =
    update-HasOwners team email role caller st w
serve-HasOwners (deletes team) now caller st n w = delete_team-HasOwners team caller st w

-- The only owner of a team who accepts a good invite to it is made a member, and the team is left
-- without an owner.
pub accept_orphans :
    (code : String) (now : ℕ) (caller : String) (i : Invite) (st : TeamStore)
    → lookup code st.invites ≡ some i
    → ltb i.expires_at now ≡ false
    → leb i.max_uses i.use_count ≡ false
    → ((email : String) → is_owner i.team_id email st ≡ true → (caller == email) ≡ true)
    → ((accept_invite code now caller st).0 ≡ ok tt)
      × ((email : String) → is_owner i.team_id email (accept_invite code now caller st).1 ≡ false)
unfolding accept_invite consume_invite add_member
accept_orphans code now caller i st found fresh left only =
    rw (found, fresh, left, accept_invite, consume_invite)
      (
        refl,
        λ email.
            rw
              (members-set i.team_id i.team_id (insert caller "member" (members_of i.team_id st))
                (record st {
                  invites = insert code (record i { use_count = i.use_count + 1 }) st.invites;
                }))
              (rw (eq_refl i.team_id) (
                owns-insert_member caller email (members_of i.team_id st)
                ∙ ground (arith, only email))),
      )
