-- ===== src/Coord/Teams/Owners.antt =====
-- Teams with owners, and what a write to the members of one team does to that
-- (internal/coord/store.go).
use tailbus.Base.{
  ℕ, ◌+◌, ◌<◌, ◌≡◌, refl, sym, subst, String, Bool, true, false, ◌==◌, eq_iff, Option, none, some,
  [], ◌∷◌, arith, inl, inr, Bool-cases, if◌then◌else◌, Dict, lookup, insert, delete, lookup-insert,
  lookup-insert_self, lookup-delete, IsMap,
}
use tailbus.Coord.Teams.{
  Team, TeamStore, members_of, or_no_role, is_owner, set_members, present, owner_count,
}

abbrev pub owns : String → Dict String → Bool
owns email m = or_no_role (lookup email m) == "owner"

-- Every team has an owner, and no member twice.
pub record HasOwners (st : TeamStore) : Type 0 where
  pub owned :
      (team : String)
      → present (lookup team st.teams) ≡ true
      → (email : String) × (is_owner team email st ≡ true)
  pub keyed : (team : String) → IsMap (members_of team st)

pub members-set :
    (team other : String) (m : Dict String) (st : TeamStore)
    → members_of other (set_members team m st) ≡ (if team == other then m else members_of other st)
members-set team other m st = ground (arith, lookup-insert team other m st.members)

missing_row : (o : Option String) → o ≡ none → (or_no_role o == "owner") ≡ false
missing_row none h = refl
missing_row (some r) h = cc

-- An owner among the other rows is not the one that the first row names.
owner_apart :
    (k e : String) (rest : Dict String)
    → lookup k rest ≡ none
    → owns e rest ≡ true
    → (k == e) ≡ false
owner_apart k e rest h o = ground (arith, missing_row (lookup e rest), eq_iff k e, h, o)

owns-cons :
    (k role e : String) (rest : Dict String)
    → lookup k rest ≡ none
    → owns e rest ≡ true
    → owns e ((k, role) ∷ rest) ≡ true
unfolding lookup
owns-cons k role e rest h o = ground (arith, owner_apart k e rest h o, o)

owns-head :
    (k role : String) (rest : Dict String)
    → (role == "owner") ≡ true
    → owns k ((k, role) ∷ rest) ≡ true
unfolding lookup
owns-head k role rest o = ground (arith, eq_iff k k, o)

count_rest :
    (k role : String) (rest : Dict String) (n : ℕ)
    → n + 1 < owner_count ((k, role) ∷ rest)
    → n < owner_count rest
unfolding owner_count
count_rest k role rest n h = ground (arith, h)

count_skip :
    (k role : String) (rest : Dict String) (n : ℕ)
    → (role == "owner") ≡ false
    → n < owner_count ((k, role) ∷ rest)
    → n < owner_count rest
unfolding owner_count
count_skip k role rest n o h = ground (arith, h, o)

some_owner : (m : Dict String) → IsMap m → 0 < owner_count m → (e : String) × (owns e m ≡ true)
unfolding owner_count
some_owner [] h n = absurd (omega arith)
some_owner ((k, role) ∷ rest) h n = elim (Bool-cases (role == "owner")) [
  | inl o ↦ (k, owns-head k role rest o)
  | inr o ↦
      let r = some_owner rest h.1 (count_skip k role rest 0 o n) in
      (r.0, owns-cons k role r.0 rest h.0 r.1)
]

-- Of two owners one is not the caller.
pub other_owner :
    (caller : String) (m : Dict String)
    → IsMap m
    → 1 < owner_count m
    → (e : String) × (owns e m ≡ true) × ((caller == e) ≡ false)
unfolding owner_count
other_owner caller [] h n = absurd (omega arith)
other_owner caller ((k, role) ∷ rest) h n = elim (Bool-cases (caller == k)) [
  | inl same ↦
      let r = some_owner rest h.1 (count_rest k role rest 0 n) in
      (
        r.0,
        owns-cons k role r.0 rest h.0 r.1,
        subst (λ v. (v == r.0) ≡ false) (sym ((eq_iff caller k).0 same))
            (owner_apart k r.0 rest h.0 r.1),
      )
  | inr other ↦ elim (Bool-cases (role == "owner")) [
    | inl o ↦ (k, owns-head k role rest o, other)
    | inr o ↦
        let r = other_owner caller rest h.1 (count_skip k role rest 1 o n) in
        (r.0, owns-cons k role r.0 rest h.0 r.1, r.2)
  ]
]

-- A write to the members of one team that leaves it an owner.
pub set_members-HasOwners :
    (team : String) (m : Dict String) (st : TeamStore)
    → HasOwners st
    → IsMap m
    → (present (lookup team st.teams) ≡ true → (e : String) × (owns e m ≡ true))
    → HasOwners (set_members team m st)
set_members-HasOwners team m st w h o = record {
  owned = λ t p. elim (Bool-cases (team == t)) [
    | inl e ↦
        let r = o (ground (arith, eq_iff team t, e, p)) in
        (r.0, ground (arith, members-set team t m st, e, r.1))
    | inr e ↦ let r = w.owned t p in (r.0, ground (arith, members-set team t m st, e, r.1))
  ];
  keyed = λ t. elim (Bool-cases (team == t)) [
    | inl e ↦ rw (members-set team t m st, e) h
    | inr e ↦ rw (members-set team t m st, e) (w.keyed t)
  ];
}

-- The members after a change of one row, at an owner whose row it is not.
pub insert_other :
    (k e role : String) (m : Dict String)
    → (k == e) ≡ false
    → owns e m ≡ true
    → owns e (insert k role m) ≡ true
insert_other k e role m n o = ground (arith, lookup-insert k e role m, n, o)

pub delete_other :
    (k e : String) (m : Dict String)
    → (k == e) ≡ false
    → owns e m ≡ true
    → owns e (delete k m) ≡ true
delete_other k e m n o = ground (arith, lookup-delete k e m, n, o)

-- Who owns a team after a write to the members of one.
pub owner-set_same :
    (team t e : String) (m : Dict String) (st : TeamStore)
    → (team == t) ≡ true
    → owns e m ≡ true
    → is_owner t e (set_members team m st) ≡ true
owner-set_same team t e m st q o = ground (arith, members-set team t m st, q, o)

pub owner-set_other :
    (team t e : String) (m : Dict String) (st : TeamStore)
    → (team == t) ≡ false
    → is_owner t e st ≡ true
    → is_owner t e (set_members team m st) ≡ true
owner-set_other team t e m st q o = ground (arith, members-set team t m st, q, o)

pub owns-insert_self : (e : String) (m : Dict String) → owns e (insert e "owner" m) ≡ true
owns-insert_self e m = rw (lookup-insert_self e "owner" m) refl

pub owns-insert_member :
    (caller email : String) (m : Dict String)
    → owns email (insert caller "member" m) ≡ (if caller == email then false else owns email m)
owns-insert_member caller email m = elim (Bool-cases (caller == email)) [
  | inl e ↦ rw (lookup-insert caller email "member" m, e) refl
  | inr e ↦ rw (lookup-insert caller email "member" m, e) refl
]

-- The table of teams changes by one present key.
pub present_other :
    (team t : String) (v : Team) (d : Dict Team)
    → (team == t) ≡ false
    → present (lookup t (insert team v d)) ≡ true
    → present (lookup t d) ≡ true
present_other team t v d q p = ground (arith, lookup-insert team t v d, q, p)
