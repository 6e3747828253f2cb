-- ===== src/Coord/Teams/Tests.antt =====
-- Runs of the team service (internal/coord/server.go).
use tailbus.Base.{
  ◌-◌, ◌≤◌, ◌≡◌, refl, String, Bool, true, false, ◌==◌, none, some, [], ◌∷◌, lookup, if◌then◌else◌,
  Bool-cases, inl, inr,
}
use tailbus.Coord.Teams.{Team, Invite, TeamStore, is_owner, or_no_role, present, sets_role, serve}
use tailbus.Coord.Teams.Owners.{HasOwners}
use tailbus.Coord.Teams.Calls.{serve-HasOwners}
use tailbus.Coord.Teams.Invites.{uses_of, uses_bounded}

abbrev invite : Invite
invite = record { team_id = "t1"; expires_at = 100; max_uses = 2; use_count = 0 }

-- A team with the owner "ann", the member "bob", and an invite.
abbrev store : TeamStore
store = record {
  teams = ("t1", record { name = "one"; created_by = "ann" }) ∷ [];
  members = ("t1", ("ann", "owner") ∷ ("bob", "member") ∷ []) ∷ [];
  invites = ("c1", invite) ∷ [];
  node_teams = [];
  broadcasts = 0;
}

empty_is_absent : present {A = Team} none ≡ true → ⊥
empty_is_absent h = cc

store-HasOwners : HasOwners store
unfolding lookup
store-HasOwners = record {
  owned = λ team p. elim (Bool-cases ("t1" == team)) [
    | inl e ↦ ("ann", rw e refl)
    | inr e ↦ ("ann", absurd (empty_is_absent (rw e at p)))
  ];
  keyed = λ team. elim (Bool-cases ("t1" == team)) [
    | inl e ↦ rw e (refl, (refl, tt))
    | inr e ↦ rw e tt
  ];
}

serve-HasOwners_example : HasOwners (serve (sets_role "t1" "ann" "member") 50 "ann" store).1
serve-HasOwners_example =
    serve-HasOwners (sets_role "t1" "ann" "member") 50 "ann" store refl store-HasOwners

role_from :
    (a b : Bool)
    → (or_no_role (if a then some "owner" else (if b then some "member" else none)) == "owner")
      ≡ true
    → a ≡ true
role_from true b h = refl
role_from false true h = cc
role_from false false h = cc

only_ann : (email : String) → is_owner "t1" email store ≡ true → ("ann" == email) ≡ true
unfolding lookup
only_ann email o = role_from ("ann" == email) ("bob" == email) o

uses_bounded_example :
    uses_of "c1" (("c1", 50, "cy") ∷ ("c1", 60, "dan") ∷ ("c1", 70, "eve") ∷ []) store ≤ 2 - 0
unfolding lookup
uses_bounded_example =
    uses_bounded "c1" (("c1", 50, "cy") ∷ ("c1", 60, "dan") ∷ ("c1", 70, "eve") ∷ []) invite store
      refl
