-- ===== src/Coord/Tokens/SingleUse.antt =====
-- A single-use token admits one node (internal/coord/store.go).
use tailbus.Base.{
  ℕ, ◌+◌, ◌≤◌, ◌≡◌, refl, sym, subst, String, Bool, true, false, ◌==◌, ◌&&◌, eq_iff, some, List, [],
  ◌∷◌, arith, inl, inr, ◌⊎◌, Bool-cases, Option-cases, Result, ok, err, if◌then◌else◌, Dict, lookup,
  insert, lookup-insert,
}
use tailbus.Coord.Tokens.{Token, TokenError, is_expired, is_used, validate_and_consume_token}

abbrev pub consumed : Result TokenError (Unit {0}) → Bool
consumed (ok _) = true
consumed (err _) = false

-- The consumptions of a hash that succeed, among some.
unfoldable pub consumptions : String → List (String × String × ℕ) → Dict Token → ℕ
consumptions hash [] d = 0
consumptions hash ((h, node, now) ∷ calls) d =
    let (result, d') = validate_and_consume_token h node now d in
    let n = consumptions hash calls d' in if (h == hash) && consumed result then n + 1 else n

-- What one call does to the row of a single-use token: nothing, or it uses the fresh token up.
abbrev pub Spent : String → Token → Bool → Dict Token → Type 0
Spent hash t counted d =
    ((counted ≡ false) × (lookup hash d ≡ some t))
    ⊎ ((counted ≡ true)
        × (is_used t.used_by ≡ false)
        × ((node : String) × (lookup hash d ≡ some (record t { used_by = some node }))))

same_token :
    (hash h : String) (t u : Token) (d : Dict Token)
    → lookup hash d ≡ some t
    → lookup h d ≡ some u
    → (h == hash) ≡ true
    → u ≡ t
same_token hash h t u d f e q = ground (arith, eq_iff h hash, f, e, q)

pub consume-Spent :
    (hash h node : String) (now : ℕ) (t : Token) (d : Dict Token)
    → lookup hash d ≡ some t
    → t.single_use ≡ true
    → Spent hash t
        ((h == hash) && consumed (validate_and_consume_token h node now d).0)
        (validate_and_consume_token h node now d).1
unfolding validate_and_consume_token
consume-Spent hash h node now t d found single = elim (Option-cases (lookup h d)) [
  | inl e ↦ rw (e, validate_and_consume_token) (inl (ground arith, found))
  | inr (u, e) ↦ elim (Bool-cases (is_expired u.expires_at now)) [
    | inl late ↦ rw (e, late, validate_and_consume_token) (inl (ground arith, found))
    | inr fresh ↦ elim (Bool-cases (u.single_use && is_used u.used_by)) [
      | inl used ↦ rw (e, fresh, used, validate_and_consume_token) (inl (ground arith, found))
      | inr free ↦
          rw (e, fresh, free, validate_and_consume_token)
            (elim (Bool-cases (h == hash)) [
              | inr other ↦ inl (
                ground (arith, other),
                elim (Bool-cases u.single_use) [
                  | inl s ↦ rw s (
                      ground (
                        arith,
                        lookup-insert h hash (record u { used_by = some node }) d,
                        other,
                        found,
                      ))
                  | inr s ↦ rw s found
                ],
              )
              | inl same ↦
                  let one = same_token hash h t u d found e same in
                  let u_single : u.single_use ≡ true =
                    subst (λ v. v.single_use ≡ true) (sym one) single in
                  inr (
                    ground (arith, same),
                    subst (λ v. is_used v.used_by ≡ false) one (ground (arith, free, u_single)),
                    (
                      node,
                      subst
                          (λ v.
                            lookup hash (
                              if u.single_use
                              then insert h (record u { used_by = some node }) d
                              else d)
                            ≡ some (record v { used_by = some node }))
                          one
                          (rw u_single (
                            ground (
                              arith,
                              lookup-insert h hash (record u { used_by = some node }) d,
                              same,
                            ))),
                    ),
                  )
            ])
    ]
  ]
]

spent_no_more :
    (hash : String) (calls : List (String × String × ℕ)) (t : Token) (d : Dict Token)
    → lookup hash d ≡ some t
    → t.single_use ≡ true
    → is_used t.used_by ≡ true
    → consumptions hash calls d ≡ 0
unfolding consumptions
spent_no_more hash [] t d found single used = refl
spent_no_more hash ((h, node, now) ∷ calls) t d found single used =
    elim (consume-Spent hash h node now t d found single) [
      | inl (skipped, same) ↦ rw skipped (spent_no_more hash calls t _ same single used)
      | inr (taken, fresh, rest) ↦ ground (arith, fresh, used)
    ]

-- Whoever offers it, and how often, a single-use token is accepted at most once, and never again
-- once it is marked as used.
pub single_use_once :
    (hash : String) (calls : List (String × String × ℕ)) (t : Token) (d : Dict Token)
    → lookup hash d ≡ some t
    → t.single_use ≡ true
    → consumptions hash calls d ≤ (if is_used t.used_by then 0 else 1)
unfolding consumptions
single_use_once hash [] t d found single = ground arith
single_use_once hash ((h, node, now) ∷ calls) t d found single =
    elim (consume-Spent hash h node now t d found single) [
      | inl (skipped, same) ↦ rw skipped (single_use_once hash calls t _ same single)
      | inr (taken, fresh, (by, next)) ↦
          rw
            (
              taken,
              fresh,
              spent_no_more hash calls (record t { used_by = some by }) _ next single refl,
            )
            (omega arith)
    ]
