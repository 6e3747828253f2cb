-- ===== src/Coord/Teams.antt =====
-- Teams, their members and their invites: the tables of internal/coord/store.go, and the calls of
-- internal/coord/server.go on them. A table is a dictionary by its primary key; the members of a
-- team, whose key is the team with the email, are a dictionary of dictionaries. The caller is the
-- email that the token of the call proves, if it is valid. Times are seconds.
pub mod Owners
pub mod Calls
pub mod Invites
mod Tests
use tailbus.Base.{
  ℕ, ◌+◌, ◌*◌, String, Bool, true, false, ◌==◌, ◌||◌, ◌&&◌, not, Option, none, some, List, [], ◌∷◌,
  Result, ok, err, ltb, leb, if◌then◌else◌, Dict, lookup, insert, delete,
}

pub record Team : Type 0 where
  pub name : String
  pub created_by : String

pub record Invite : Type 0 where
  pub team_id : String
  pub expires_at : ℕ
  pub max_uses : ℕ
  pub use_count : ℕ

-- `node_teams` is the team of each node; `broadcasts` counts the calls of ForceBroadcast.
pub record TeamStore : Type 0 where
  pub teams : Dict Team
  pub members : Dict (Dict String)
  pub invites : Dict Invite
  pub node_teams : Dict String
  pub broadcasts : ℕ

pub data TeamError : Type 0 where
  unauthenticated not_an_owner not_a_member team_exists team_not_found : TeamError
  cannot_remove_yourself bad_role last_owner : TeamError
  invalid_invite expired_invite used_up_invite invite_exists : TeamError

abbrev pub rows : Option (Dict String) → Dict String
rows none = []
rows (some m) = m

abbrev pub members_of : String → TeamStore → Dict String
members_of team st = rows (lookup team st.members)

abbrev pub or_no_role : Option String → String
or_no_role none = ""
or_no_role (some role) = role

-- GetUserTeamRole: "" for one that is not a member.
abbrev pub role_of : String → String → TeamStore → String
role_of team email st = or_no_role (lookup email (members_of team st))

abbrev pub is_owner : String → String → TeamStore → Bool
is_owner team email st = role_of team email st == "owner"

-- A write to the members of one team.
abbrev pub set_members : String → Dict String → TeamStore → TeamStore
set_members team m st = record st { members = insert team m st.members }

-- The names are unique.
unfoldable pub name_taken : String → Dict Team → Bool
name_taken name [] = false
name_taken name ((id, t) ∷ rest) = t.name == name || name_taken name rest

abbrev pub present {ℓ} : {A : Type ℓ} → Option A → Bool
present none = false
present (some _) = true

abbrev pub Reply : Type 0
Reply = Result TeamError (Unit {0}) × TeamStore

unfoldable pub create_team : String → String → String → TeamStore → Reply
create_team team name caller st =
    if present (lookup team st.teams) || name_taken name st.teams then (err team_exists, st) else (
      ok tt,
      set_members team (insert caller "owner" (members_of team st)) (record st {
        teams = insert team (record { name = name; created_by = caller }) st.teams;
      }),
    )

-- The defaults of CreateTeamInvite: one use, and seven days.
abbrev pub max_uses_or_default : ℕ → ℕ
max_uses_or_default n = if ltb 0 n then n else 1

abbrev pub ttl_or_default : ℕ → ℕ
ttl_or_default n = if ltb 0 n then n else 7 * 24 * 3600

unfoldable pub create_invite : String → String → ℕ → ℕ → ℕ → String → TeamStore → Reply
create_invite code team uses ttl now caller st =
    if not (is_owner team caller st)
    then (err not_an_owner, st)
    else if present (lookup code st.invites)
    then (err invite_exists, st)
    else (
      ok tt,
      record st {
        invites =
            insert code
              (record {
                team_id = team;
                expires_at = now + ttl_or_default ttl;
                max_uses = max_uses_or_default uses;
                use_count = 0;
              })
              st.invites;
      },
    )

-- ConsumeTeamInvite: the team, if the code is good for one more use.
abbrev pub consume_found :
    String → ℕ → Option Invite → TeamStore → Result TeamError String × TeamStore
consume_found code now none st = (err invalid_invite, st)
consume_found code now (some i) st =
    if ltb i.expires_at now
    then (err expired_invite, st)
    else if leb i.max_uses i.use_count
    then (err used_up_invite, st)
    else (
      ok i.team_id,
      record st { invites = insert code (record i { use_count = i.use_count + 1 }) st.invites },
    )

unfoldable pub consume_invite : String → ℕ → TeamStore → Result TeamError String × TeamStore
consume_invite code now st = consume_found code now (lookup code st.invites) st

-- AddTeamMember, which overwrites the role of one that is a member already.
unfoldable pub add_member : String → String → String → TeamStore → TeamStore
add_member team email role st = set_members team (insert email role (members_of team st)) st

abbrev pub add_consumed : String → Result TeamError String × TeamStore → Reply
add_consumed caller (err e, st) = (err e, st)
add_consumed caller (ok team, st) = (ok tt, add_member team caller "member" st)

unfoldable pub accept_invite : String → ℕ → String → TeamStore → Reply
accept_invite code now caller st = add_consumed caller (consume_invite code now st)

unfoldable pub remove_member : String → String → String → TeamStore → Reply
remove_member team email caller st =
    if not (is_owner team caller st)
    then (err not_an_owner, st)
    else if email == caller
    then (err cannot_remove_yourself, st)
    else if not (present (lookup email (members_of team st)))
    then (err not_a_member, st)
    else (ok tt, set_members team (delete email (members_of team st)) st)

unfoldable pub owner_count : Dict String → ℕ
owner_count [] = 0
owner_count ((email, role) ∷ rest) =
    let n = owner_count rest in if role == "owner" then n + 1 else n

abbrev pub known_role : String → Bool
known_role role = role == "owner" || role == "member"

unfoldable pub update_role : String → String → String → String → TeamStore → Reply
update_role team email role caller st =
    let members = members_of team st in
    if not (known_role role)
    then (err bad_role, st)
    else if not (is_owner team caller st)
    then (err not_an_owner, st)
    else if (email == caller && not (role == "owner")) && leb (owner_count members) 1
    then (err last_owner, st)
    else if not (present (lookup email members))
    then (err not_a_member, st)
    else (ok tt, set_members team (insert email role members) st)

-- The cascade takes the invites of the team.
unfoldable pub drop_invites : String → Dict Invite → Dict Invite
drop_invites team [] = []
drop_invites team ((code, i) ∷ rest) =
    let kept = drop_invites team rest in if i.team_id == team then kept else (code, i) ∷ kept

unfoldable pub unscope : String → Dict String → Dict String
unscope team [] = []
unscope team ((node, t) ∷ rest) = (node, if t == team then "" else t) ∷ unscope team rest

unfoldable pub delete_team : String → String → TeamStore → Reply
delete_team team caller st =
    if not (is_owner team caller st)
    then (err not_an_owner, st)
    else if not (present (lookup team st.teams))
    then (err team_not_found, st)
    else (
      ok tt,
      record st {
        teams = delete team st.teams;
        members = delete team st.members;
        invites = drop_invites team st.invites;
        node_teams = unscope team st.node_teams;
        broadcasts = st.broadcasts + 1;
      },
    )

-- One call of the service.
pub data TeamCall : Type 0 where
  creates : String → String → TeamCall
  invites_to : String → String → ℕ → ℕ → TeamCall
  accepts : String → TeamCall
  removes : String → String → TeamCall
  sets_role : String → String → String → TeamCall
  deletes : String → TeamCall

-- A call at a time, by a caller whose token was valid.
unfoldable pub serve : TeamCall → ℕ → String → TeamStore → Reply
serve (creates team name) now caller st = create_team team name caller st
serve (invites_to code team uses ttl) now caller st = create_invite code team uses ttl now caller st
serve (accepts code) now caller st = accept_invite code now caller st
serve (removes team email) now caller st = remove_member team email caller st
serve (sets_role team email role) now caller st = update_role team email role caller st
serve (deletes team) now caller st = delete_team team caller st

-- Without a valid token the call is refused.
abbrev pub handle : TeamCall → ℕ → Option String → TeamStore → Reply
handle call now none st = (err unauthenticated, st)
handle call now (some caller) st = serve call now caller st
