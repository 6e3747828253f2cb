-- ===== src/Resolver/Discovery/Exact.antt =====
-- Which handles a search finds, and their scores (internal/handle/resolver.go).
use native.Mathlib.Nat.{mul-suc}
use tailbus.Base.{
  ◌≢◌, ◌↔◌, ◌⊎◌, All, Any, eq_iff, contains, concat, suc, ℕ, ◌+◌, ◌*◌, ◌≡◌, refl, ap, ◌∙◌, String,
  Bool, true, false, ◌==◌, ◌&&◌, ◌||◌, Option, none, some, List, [], ◌∷◌, ◌++◌, arith, inl, inr,
  Bool-cases, length, if◌then◌else◌,
}
use tailbus.Resolver.{CommandSpec, ServiceManifest}
use tailbus.Resolver.Discovery.{
  FindQuery, HandleMatch, contains_all, has_command, credit, match_version, match_command,
  match_tags, match_domains, evaluate_match,
}

-- What a query asks of a manifest: all the capabilities, domains and tags, and the command and the
-- version where they are named; and what it is worth.
abbrev version_met : FindQuery → ServiceManifest → Bool
version_met q m = q.version == "" || m.version == q.version

abbrev command_met : FindQuery → ServiceManifest → Bool
command_met q m = (q.command_name == "" || has_command m.commands q.command_name) && version_met q m

abbrev pub meets : FindQuery → ServiceManifest → Bool
meets q m =
    contains_all m.capabilities q.capabilities
    && (contains_all m.domains q.domains && (contains_all m.tags q.tags && command_met q m))

abbrev version_score : FindQuery → ℕ
version_score q = if q.version == "" then 0 else 10

abbrev command_score : FindQuery → ℕ
command_score q = (if q.command_name == "" then 0 else 20) + version_score q

abbrev pub full_score : FindQuery → ℕ
full_score q =
    100 * length q.capabilities + (30 * length q.domains + (10 * length q.tags + command_score q))

mul_suc : (s w n : ℕ) → s + w + w * n ≡ s + w * suc n
mul_suc s w n = rw (mul-suc w n) (omega arith)

score-credit :
    (weight : ℕ) (kind : String) (xs : List String) (m : HandleMatch)
    → (credit weight kind xs m).score ≡ m.score + weight * length xs
unfolding credit
score-credit weight kind [] m = omega arith
score-credit weight kind (x ∷ xs) m =
    score-credit weight kind xs
      (record m { score = m.score + weight; match_reasons = m.match_reasons ++ concat kind x ∷ [] })
    ∙ mul_suc m.score weight (length xs)

handle-credit :
    (weight : ℕ) (kind : String) (xs : List String) (m : HandleMatch)
    → (credit weight kind xs m).handle ≡ m.handle
unfolding credit
handle-credit weight kind [] m = refl
handle-credit weight kind (x ∷ xs) m =
    handle-credit weight kind xs
      (record m { score = m.score + weight; match_reasons = m.match_reasons ++ concat kind x ∷ [] })

-- The handle and the score of a match, of no match if there is none.
abbrev pub outcome : Option HandleMatch → Option (String × ℕ)
outcome none = none
outcome (some m) = some (m.handle, m.score)

abbrev pub found_if : Bool → String → ℕ → Option (String × ℕ)
found_if true handle n = some (handle, n)
found_if false handle n = none

-- A loop's credit, and what the later stages add.
stage :
    (b : Bool) (weight : ℕ) (kind : String) (xs : List String) (m : HandleMatch) (x : ℕ)
    → found_if b (credit weight kind xs m).handle ((credit weight kind xs m).score + x)
      ≡ found_if b m.handle (m.score + (weight * length xs + x))
stage false weight kind xs m x = refl
stage true weight kind xs m x =
    rw (handle-credit weight kind xs m, score-credit weight kind xs m)
      (ap (found_if true m.handle) (add_assoc_of m.score (weight * length xs) x))
  where
    add_assoc_of : (a b c : ℕ) → a + b + c ≡ a + (b + c)
    add_assoc_of a b c = omega arith

version-outcome :
    (q : FindQuery) (manifest : ServiceManifest) (m : HandleMatch)
    → outcome (match_version q manifest m)
      ≡ found_if (version_met q manifest) m.handle (m.score + version_score q)
unfolding credit
version-outcome q manifest m = elim (Bool-cases (q.version == "")) [
  | inl e ↦ rw e (ap (found_if true m.handle) (omega arith))
  | inr e ↦ elim (Bool-cases (manifest.version == q.version)) [
    | inl f ↦ rw (e, f) refl
    | inr f ↦ rw (e, f) refl
  ]
]

command-outcome :
    (q : FindQuery) (manifest : ServiceManifest) (m : HandleMatch)
    → outcome (match_command q manifest m)
      ≡ found_if (command_met q manifest) m.handle (m.score + command_score q)
command-outcome q manifest m = elim (Bool-cases (q.command_name == "")) [
  | inl e ↦ rw e (
      version-outcome q manifest m
      ∙ ap (λ n. found_if (version_met q manifest) m.handle (m.score + n)) (omega arith))
  | inr e ↦ elim (Bool-cases (has_command manifest.commands q.command_name)) [
    | inl f ↦
        rw (e, f)
          (version-outcome q manifest (credit 20 "command:" (q.command_name ∷ []) m)
            ∙ stage (version_met q manifest) 20 "command:" (q.command_name ∷ []) m
                (version_score q))
    | inr f ↦ rw (e, f) refl
  ]
]

tags-outcome :
    (q : FindQuery) (manifest : ServiceManifest) (m : HandleMatch)
    → outcome (match_tags q manifest m)
      ≡ found_if
          (contains_all manifest.tags q.tags && command_met q manifest)
          m.handle
          (m.score + (10 * length q.tags + command_score q))
tags-outcome q manifest m = elim (Bool-cases (contains_all manifest.tags q.tags)) [
  | inr e ↦ rw e refl
  | inl e ↦ rw e (
      command-outcome q manifest (credit 10 "tag:" q.tags m)
      ∙ stage (command_met q manifest) 10 "tag:" q.tags m (command_score q))
]

domains-outcome :
    (q : FindQuery) (manifest : ServiceManifest) (m : HandleMatch)
    → outcome (match_domains q manifest m)
      ≡ found_if
          (contains_all manifest.domains q.domains
            && (contains_all manifest.tags q.tags && command_met q manifest))
          m.handle
          (m.score + (30 * length q.domains + (10 * length q.tags + command_score q)))
domains-outcome q manifest m = elim (Bool-cases (contains_all manifest.domains q.domains)) [
  | inr e ↦ rw e refl
  | inl e ↦ rw e (
      tags-outcome q manifest (credit 30 "domain:" q.domains m)
      ∙ stage (contains_all manifest.tags q.tags && command_met q manifest) 30 "domain:" q.domains m
          (10 * length q.tags + command_score q))
]

pub evaluate_match-met :
    (handle : String) (manifest : ServiceManifest) (q : FindQuery)
    → outcome (evaluate_match handle manifest q) ≡ found_if (meets q manifest) handle (full_score q)
unfolding evaluate_match
evaluate_match-met handle manifest q =
    let m : HandleMatch = record {
      handle = handle;
      manifest = manifest;
      score = 0;
      match_reasons = [];
    } in
    elim (Bool-cases (contains_all manifest.capabilities q.capabilities)) [
      | inr e ↦ rw (e, evaluate_match) refl
      | inl e ↦
          rw (e, evaluate_match)
            (domains-outcome q manifest (credit 100 "capability:" q.capabilities m)
              ∙ stage
                  (contains_all manifest.domains q.domains
                    && (contains_all manifest.tags q.tags && command_met q manifest))
                  100 "capability:" q.capabilities m
                  (30 * length q.domains + (10 * length q.tags + command_score q))
              ∙ ap
                  (λ n.
                    found_if
                      (contains_all manifest.domains q.domains
                        && (contains_all manifest.tags q.tags && command_met q manifest))
                      handle (n))
                  (zero_add_of (full_score q)))
    ]
  where
    zero_add_of : (n : ℕ) → 0 + n ≡ n
    zero_add_of n = omega arith

-- Every needed text is among the values.
abbrev pub Offers : List String → List String → Type 0
Offers values = All (λ needed. Any (λ v. v ≡ needed) values)

-- What the query asks for, as the manifest has it.
abbrev pub Meets : FindQuery → ServiceManifest → Type 0
Meets q m =
    Offers m.capabilities q.capabilities
    × (Offers m.domains q.domains
        × (Offers m.tags q.tags
            × (((q.command_name ≡ "")
                  ⊎ Any (λ (c : CommandSpec). c.name ≡ q.command_name) m.commands)
                × ((q.version ≡ "") ⊎ (m.version ≡ q.version)))))

contains-Any : (vs : List String) (x : String) → (contains vs x ≡ true) ↔ Any (λ v. v ≡ x) vs
unfolding contains
contains-Any [] x = (λ e. cc, λ h. absurd h)
contains-Any (v ∷ vs) x = elim (Bool-cases (v == x)) [
  | inl e ↦ (λ h. inl ((eq_iff v x).0 e), λ h. ground (arith, e))
  | inr e ↦ (
    λ h. inr ((contains-Any vs x).0 (ground (arith, e, h))),
    λ h. elim h [
      | inl same ↦ ground (arith, e, same, eq_iff v x)
      | inr later ↦ ground (arith, (contains-Any vs x).1 later)
    ],
  )
]

contains_all-Offers : (vs xs : List String) → (contains_all vs xs ≡ true) ↔ Offers vs xs
unfolding contains_all
contains_all-Offers vs [] = (λ e. tt, λ h. refl)
contains_all-Offers vs (x ∷ xs) = (
  λ e. (
    (contains-Any vs x).0 (ground (arith, e)),
    (contains_all-Offers vs xs).0 (ground (arith, e)),
  ),
  λ h. ground (arith, (contains-Any vs x).1 h.0, (contains_all-Offers vs xs).1 h.1),
)

has_command-Any :
    (cs : List CommandSpec) (x : String)
    → (has_command cs x ≡ true) ↔ Any (λ (c : CommandSpec). c.name ≡ x) cs
unfolding has_command
has_command-Any [] x = (λ e. cc, λ h. absurd h)
has_command-Any (c ∷ cs) x = elim (Bool-cases (c.name == x)) [
  | inl e ↦ (λ h. inl ((eq_iff c.name x).0 e), λ h. ground (arith, e))
  | inr e ↦ (
    λ h. inr ((has_command-Any cs x).0 (ground (arith, e, h))),
    λ h. elim h [
      | inl same ↦ ground (arith, e, same, eq_iff c.name x)
      | inr later ↦ ground (arith, (has_command-Any cs x).1 later)
    ],
  )
]

or-Either :
    (a b : Bool) (P Q : Type 0) → ((a ≡ true) ↔ P) → ((b ≡ true) ↔ Q) → ((a || b) ≡ true) ↔ (P ⊎ Q)
or-Either true b P Q p q = (λ e. inl (p.0 refl), λ h. refl)
or-Either false b P Q p q =
    (λ e. inr (q.0 e), λ h. elim h [ inl x ↦ absurd (false_true (p.1 x)) | inr y ↦ q.1 y ])
  where
    false_true : ◌≢◌ {A = Bool} false true
    false_true e = cc

and-Both :
    (a b : Bool) (P Q : Type 0) → ((a ≡ true) ↔ P) → ((b ≡ true) ↔ Q) → ((a && b) ≡ true) ↔ (P × Q)
and-Both true b P Q p q = (λ e. (p.0 refl, q.0 e), λ h. q.1 h.1)
and-Both false b P Q p q = (λ e. cc, λ h. p.1 h.0)

meets-Meets : (q : FindQuery) (m : ServiceManifest) → (meets q m ≡ true) ↔ Meets q m
meets-Meets q m = and-Both _ _ _ _ (contains_all-Offers m.capabilities q.capabilities) (
    and-Both _ _ _ _ (contains_all-Offers m.domains q.domains) (
      and-Both _ _ _ _ (contains_all-Offers m.tags q.tags) (
        and-Both _ _ _ _
          (or-Either _ _ _ _ (eq_iff q.command_name "") (has_command-Any m.commands q.command_name))
          (or-Either _ _ _ _ (eq_iff q.version "") (eq_iff m.version q.version)))))

-- A manifest matches a query just when it has every capability, domain and tag that the query asks for,
-- and the command and the version where they are named; and then its score is a hundred for each
-- capability, thirty for each domain, ten for each tag, twenty for a command and ten for a version.
pub evaluate_match-exact :
    (handle : String) (manifest : ServiceManifest) (q : FindQuery)
    → (Meets q manifest
        × (outcome (evaluate_match handle manifest q) ≡ some (handle, full_score q)))
      ⊎ ((¬ Meets q manifest) × (outcome (evaluate_match handle manifest q) ≡ none))
evaluate_match-exact handle manifest q = elim (Bool-cases (meets q manifest)) [
  | inl e ↦ inl (
    (meets-Meets q manifest).0 e,
    evaluate_match-met handle manifest q ∙ ap (λ b. found_if b handle (full_score q)) e,
  )
  | inr e ↦ inr (
    λ h. ground (arith, e, (meets-Meets q manifest).1 h),
    evaluate_match-met handle manifest q ∙ ap (λ b. found_if b handle (full_score q)) e,
  )
]
