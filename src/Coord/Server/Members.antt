-- ===== src/Coord/Server/Members.antt =====
-- Who may put a node into a team, and what a refused registration leaves (internal/coord/server.go).
use text.Mathlib.Text.{starts_with}
use tailbus.Base.{
  ℕ, ◌≡◌, ◌≢◌, refl, subst, String, Bool, false, ◌==◌, Option, Option-cases, none, some, [], ◌∷◌,
  Result, ok, err, if◌then◌else◌, Dict, lookup, insert, lookup-insert_self, arith, eq_iff, inl, inr,
  ◌⊎◌, Bool-cases,
}
use tailbus.Coord.Tokens.{
  validate_registration, admit_by, Admission, AdmissionResult, Claims, TokenError,
}
use tailbus.Coord.Teams.{
  Team, TeamStore, TeamError, team_exists, members_of, role_of, name_taken, create_team,
}
use tailbus.Coord.Registry.{NodeRow, NodeStore, NodeRecord, RegistryError, node_row}
use tailbus.Coord.Registry.Calls
use tailbus.Coord.Registry.Calls.{set_node_team}
use tailbus.Coord.Registry.Found.{registered}
use tailbus.Coord.Server.{
  Server, RegisterNodeRequest, ServerError, Registered, Draws, has_team, personal_name, second_name,
  or_again, ensure_personal_team, by_jwt, with_personal, team_for, outside_team, record_for,
  finish_registration, register_admitted, register_node,
}

-- A user is a member of none of the teams.
abbrev pub Teamless : String → TeamStore → Type 0
Teamless email st =
    (id : String) (t : Team) → lookup id st.teams ≡ some t → lookup email (members_of id st) ≡ none

-- Some teams after others: the same, or one more, of the user of an access token that the issuer
-- accepts, whom no team had: its id and its name are new, and the user owns it.
abbrev pub Grown : Option (String → Option Claims) → String → TeamStore → TeamStore → Type 0
Grown jwt token st st' =
    (st' ≡ st)
    ⊎ ((validate : String → Option Claims) × (c : Claims) × (id : String) × (name : String) × (jwt
          ≡ some validate)
        × (validate token ≡ some c)
        × (c.token_type ≡ "access")
        × Teamless c.email st
        × (lookup id st.teams ≡ none)
        × (name_taken name st.teams ≡ false)
        × (st' ≡ record st {
          teams = insert id (record { name = name; created_by = c.email }) st.teams;
          members = insert id (insert c.email "owner" (members_of id st)) st.members;
        }))

-- What a registration comes to: a node of the team in the tables, whose user, if the token has one, is
-- a member of the team; or nothing but a change of the tokens and the user's own new team.
abbrev pub Joined : RegisterNodeRequest → Server → Result ServerError Registered × Server → Type 0
Joined req s (err e, s') =
    (s'.tables ≡ s.tables)
    × (s'.peer_map ≡ s.peer_map)
    × Grown s.admission.jwt req.auth_token s.teams s'.teams
Joined req s (ok r, s') =
    ((r.team_id ≡ "") ⊎ ((r.user_email ≡ "") ⊎ (role_of r.team_id r.user_email s'.teams ≢ "")))
    × ((n : NodeRow) × (lookup req.node_id s'.tables.nodes.nodes ≡ some n)
        × (n.team_id ≡ r.team_id))
    × Grown s.admission.jwt req.auth_token s.teams s'.teams

-- ListUserTeams is empty for one that is in no team only.
has_team-Teamless :
    (email : String) (ts : Dict Team) (st : TeamStore)
    → has_team email ts st ≡ false
    → (id : String) (t : Team) → lookup id ts ≡ some t
    → lookup email (members_of id st) ≡ none
unfolding has_team lookup
has_team-Teamless email [] st h id t e = cc
has_team-Teamless email ((k, u) ∷ ts) st h id t e =
    elim (Option-cases (lookup email (members_of k st))) [
      | inr (role, f) ↦ ground (arith, h, f)
      | inl f ↦ elim (Bool-cases (k == id)) [
        | inl same ↦ subst (λ k. lookup email (members_of k st) ≡ none) ((eq_iff k id).0 same) f
        | inr other ↦
            has_team-Teamless email ts st (ground (arith, h, f)) id t (ground (arith, e, other))
      ]
    ]

-- What a creation of a team comes to.
create_team_cases :
    (id name email : String) (st : TeamStore)
    → ((e : TeamError) × (create_team id name email st ≡ (err e, st)))
      ⊎ ((lookup id st.teams ≡ none)
          × (name_taken name st.teams ≡ false)
          × (create_team id name email st ≡ (
            ok tt,
            record st {
              teams = insert id (record { name = name; created_by = email }) st.teams;
              members = insert id (insert email "owner" (members_of id st)) st.members;
            },
          )))
unfolding create_team
create_team_cases id name email st = elim (Option-cases (lookup id st.teams)) [
  | inr (t, e) ↦ rw e (inl (team_exists, refl))
  | inl e ↦ elim (Bool-cases (name_taken name st.teams)) [
    | inl taken ↦ rw (e, taken) (inl (team_exists, refl))
    | inr free ↦ rw (e, free) (inr (refl, refl, refl))
  ]
]

module _ (jwt : Option (String → Option Claims)) (validate : String → Option Claims)
    (token : String) (c : Claims) (issuer : jwt ≡ some validate) (valid : validate token ≡ some c)
    (access : c.token_type ≡ "access") where
  ensure_personal_team-Grown :
      (draws : Draws) (st : TeamStore) → Grown jwt token st (ensure_personal_team draws c.email st)
  unfolding ensure_personal_team
  ensure_personal_team-Grown draws st = elim (Bool-cases (has_team c.email st.teams st)) [
    | inl some_team ↦ rw some_team (inl refl)
    | inr none_yet ↦
        let lone = has_team-Teamless c.email st.teams st none_yet in
        rw none_yet (elim (create_team_cases draws.first_id (personal_name c.email) c.email st) [
          | inr (new, free, e) ↦ rw e (
              inr (
                validate,
                c,
                draws.first_id,
                personal_name c.email,
                issuer,
                valid,
                access,
                lone,
                new,
                free,
                refl,
              ))
          | inl (x, e) ↦
              let name = second_name draws c.email in
              rw e (elim (create_team_cases draws.second_id name c.email st) [
                | inl (y, f) ↦ rw (f, or_again) (inl refl)
                | inr (new, free, f) ↦
                    rw (f, or_again)
                      (inr (
                        validate, c, draws.second_id, name, issuer, valid, access, lone, new, free,
                        refl,
                      ))
              ])
        ])
  ]

with_personal-Grown :
    (jwt : Option (String → Option Claims)) (token node : String) (now : ℕ) (a : Admission)
    (draws : Draws) (st : TeamStore)
    → Grown jwt token st
        (with_personal (by_jwt jwt token) (admit_by jwt token node now a).0 draws st)
with_personal-Grown none token node now a draws st = inl refl
with_personal-Grown (some validate) token node now a draws st =
    elim (Bool-cases (starts_with token "eyJ")) [
      | inr other ↦ rw other (inl refl)
      | inl jwt ↦ rw jwt (elim (Option-cases (validate token)) [
        | inl bad ↦ rw bad (inl refl)
        | inr (c, good) ↦ elim (Bool-cases (c.token_type == "access")) [
          | inr wrong ↦ rw (good, wrong) (inl refl)
          | inl access ↦
              rw (good, access)
                (ensure_personal_team-Grown (some validate) validate token c refl good
                  ((eq_iff c.token_type "access").0 access) draws st)
        ]
      ])
    ]

allowed :
    (team : String) (res : AdmissionResult) (teams : TeamStore)
    → outside_team team res teams ≡ false
    → (team ≡ "") ⊎ ((res.email ≡ "") ⊎ (role_of team res.email teams ≢ ""))
allowed team res teams h = elim (Bool-cases (team == "")) [
  | inl none_team ↦ inl ((eq_iff team "").0 none_team)
  | inr t ↦ elim (Bool-cases (res.email == "")) [
    | inl no_user ↦ inr (inl ((eq_iff res.email "").0 no_user))
    | inr u ↦ inr (inr (λ q. ground (arith, h, t, u, eq_iff (role_of team res.email teams) "", q)))
  ]
]

-- The row of the node after the registry and the write of its team.
row_of_registered :
    (rec : NodeRecord) (st st' : NodeStore)
    → Calls.register_node rec st ≡ (ok tt, st')
    → lookup rec.node_id st'.nodes ≡ some (node_row rec)
row_of_registered rec st st' done =
    let (rows, kept, same) = registered rec st st' done in
    rw same (lookup-insert_self rec.node_id (node_row rec) st.nodes)

teamed :
    (node team : String) (n : NodeRow) (st : NodeStore)
    → lookup node st.nodes ≡ some n
    → n.team_id ≡ team
    → (m : NodeRow) × (lookup node (if team == "" then st else set_node_team node team st).nodes
        ≡ some m)
      × (m.team_id ≡ team)
unfolding set_node_team
teamed node team n st e t = elim (Bool-cases (team == "")) [
  | inl without ↦ rw without (n, e, t)
  | inr within ↦ rw within (
      rw e (
        record n { team_id = team },
        lookup-insert_self node (record n { team_id = team }) st.nodes,
        refl,
      ))
]

module _ (sha256 : String → String) (fails : String → Bool) where
  finish-Joined :
      (req : RegisterNodeRequest) (team : String) (res : AdmissionResult) (now : ℕ) (s s' : Server)
      (reply : Result RegistryError (Unit {0}) × NodeStore)
      → s'.tables ≡ s.tables
      → s'.peer_map ≡ s.peer_map
      → Grown s.admission.jwt req.auth_token s.teams s'.teams
      → Calls.register_node (record_for req team now) s'.tables.nodes ≡ reply
      → outside_team team res s'.teams ≡ false
      → Joined req s (finish_registration sha256 fails req team res reply s')
  finish-Joined req team res now s s' (err e, nodes) same calm grown done inside =
      (same, calm, grown)
  finish-Joined req team res now s s' (ok _, nodes) same calm grown done inside =
      let rec = record_for req team now in
      (
        allowed team res s'.teams inside,
        teamed req.node_id team (node_row rec) nodes
            (row_of_registered rec s'.tables.nodes nodes done) refl,
        grown,
      )

  decided-Joined :
      (req : RegisterNodeRequest) (now : ℕ) (s s' : Server)
      (res : Result TokenError AdmissionResult)
      → s'.tables ≡ s.tables
      → s'.peer_map ≡ s.peer_map
      → Grown s.admission.jwt req.auth_token s.teams s'.teams
      → Joined req s (register_admitted sha256 fails req now res s')
  decided-Joined req now s s' (err e) same calm grown = (same, calm, grown)
  decided-Joined req now s s' (ok res) same calm grown =
      elim (Bool-cases (outside_team (team_for req res) res s'.teams)) [
        | inl outside ↦ rw outside (same, calm, grown)
        | inr inside ↦ rw inside (
            finish-Joined req (team_for req res) res now s s'
              (Calls.register_node (record_for req (team_for req res) now) s'.tables.nodes) same
              calm grown refl inside)
      ]

  -- A registration that is accepted in a team has a token of no user, or of a member of the team, and
  -- the node is in the tables with that team; one that is refused changes neither the tables nor what
  -- the watchers have. In both cases the teams stay, but for a personal team: an access token of the
  -- issuer can add one, with a new id and a new name and its user as the owner, if no team has the user.
  pub register_node-Joined :
      (draws : Draws) (req : RegisterNodeRequest) (now : ℕ) (s : Server)
      → Joined req s (register_node sha256 fails draws req now s)
  unfolding register_node validate_registration
  register_node-Joined draws req now s =
      let (res, admission) = admit_by s.admission.jwt req.auth_token req.node_id now s.admission in
      decided-Joined req now s
        (record s {
          admission = admission;
          teams = with_personal (by_jwt s.admission.jwt req.auth_token) res draws s.teams;
        })
        res refl refl
        (with_personal-Grown s.admission.jwt req.auth_token req.node_id now s.admission draws
          s.teams)
