-- ===== src/Coord/Tokens/Admitted.antt =====
-- Why a node is admitted (internal/coord/admission.go).
use text.Mathlib.Text.{starts_with}
use tailbus.Base.{
  ℕ, ◌≡◌, refl, String, Bool, true, false, ◌==◌, ◌&&◌, not, Option, none, some, arith, inl, inr,
  ◌⊎◌, Bool-cases, Option-cases, Result, ok, err, lookup,
}
use tailbus.Coord.Tokens.{
  consume_row, Token, TokenError, Claims, AdmissionResult, Admission, is_expired, is_used,
  validate_and_consume_token, has_auth_tokens, admit_claims, admit_consumed, admit_shared, admit_by,
  validate_registration,
}

abbrev pub admitted : Result TokenError AdmissionResult → Bool
admitted (ok _) = true
admitted (err _) = false

-- The server is open; or the token is a JWT, valid and for access; or it is a token of the table
-- that has not expired and, if it is for a single use, has not been used.
abbrev pub Reason : Option (String → Option Claims) → String → ℕ → Admission → Type 0
Reason jwt token now a =
    ((has_auth_tokens a.tokens ≡ false) × (jwt ≡ none))
    ⊎ ((validate : String → Option Claims) × (c : Claims) × (jwt ≡ some validate)
        × (validate token ≡ some c)
        × ((c.token_type == "access") ≡ true))
    ⊎ ((t : Token) × (lookup (a.hash token) a.tokens ≡ some t)
        × (is_expired t.expires_at now ≡ false)
        × ((t.single_use && is_used t.used_by) ≡ false))

Row : String → ℕ → Admission → Type 0
Row token now a =
    (t : Token) × (lookup (a.hash token) a.tokens ≡ some t)
    × (is_expired t.expires_at now ≡ false)
    × ((t.single_use && is_used t.used_by) ≡ false)

refused : false ≡ true → ⊥
refused h = cc

consume_row-Row :
    (token node : String) (now : ℕ) (a : Admission) (o : Option Token)
    → lookup (a.hash token) a.tokens ≡ o
    → admitted (admit_consumed (consume_row (a.hash token) node now o a.tokens) a).0 ≡ true
    → Row token now a
unfolding Row
consume_row-Row token node now a none e h = cc
consume_row-Row token node now a (some t) e h = elim (Bool-cases (is_expired t.expires_at now)) [
  | inl late ↦ absurd (refused (rw late at h))
  | inr fresh ↦ elim (Bool-cases (t.single_use && is_used t.used_by)) [
    | inl used ↦ absurd (refused (rw (fresh, used) at h))
    | inr free ↦ (t, e, fresh, free)
  ]
]

admit_shared-Reason :
    (jwt : Option (String → Option Claims)) (oauth : Bool) (token node : String) (now : ℕ)
    (a : Admission)
    → (oauth ≡ false → jwt ≡ none)
    → admitted (admit_shared oauth token node now a).0 ≡ true
    → Reason jwt token now a
unfolding validate_and_consume_token Row
admit_shared-Reason jwt oauth token node now a no_issuer h =
    elim (Bool-cases (not (has_auth_tokens a.tokens) && not oauth)) [
      | inl free ↦ inl (ground (arith, free), no_issuer (ground (arith, free)))
      | inr closed ↦ elim (Bool-cases (token == "")) [
        | inl empty ↦ absurd (refused (rw (closed, empty) at h))
        | inr given ↦ inr (
            inr (
              consume_row-Row token node now a (lookup (a.hash token) a.tokens) refl
                (rw (closed, given) at h)))
      ]
    ]

admit_claims-Reason :
    (validate : String → Option Claims) (token node : String) (now : ℕ) (a : Admission)
    → admitted (admit_claims node (validate token) a).0 ≡ true
    → Reason (some validate) token now a
admit_claims-Reason validate token node now a h = elim (Option-cases (validate token)) [
  | inl e ↦ absurd (refused (rw e at h))
  | inr (c, e) ↦ elim (Bool-cases (c.token_type == "access")) [
    | inl access ↦ inr (inl (validate, c, refl, e, access))
    | inr other ↦ absurd (refused (rw (e, other) at h))
  ]
]

admit_by-Reason :
    (jwt : Option (String → Option Claims)) (token node : String) (now : ℕ) (a : Admission)
    → admitted (admit_by jwt token node now a).0 ≡ true
    → Reason jwt token now a
admit_by-Reason none token node now a h =
    admit_shared-Reason none false token node now a (λ e. refl) h
admit_by-Reason (some validate) token node now a h = elim (Bool-cases (starts_with token "eyJ")) [
  | inl e ↦ admit_claims-Reason validate token node now a (rw e at h)
  | inr e ↦ admit_shared-Reason (some validate) true token node now a (λ q. cc) (rw e at h)
]

-- A node is admitted for one of three reasons only: no token is kept and no issuer is set, or the
-- issuer vouches for an access token, or the token is kept, has not expired, and has not been used
-- if it is for a single use.
pub validate_registration-Reason :
    (token node : String) (now : ℕ) (a : Admission)
    → admitted (validate_registration token node now a).0 ≡ true
    → Reason a.jwt token now a
unfolding validate_registration
validate_registration-Reason token node now a h = admit_by-Reason a.jwt token node now a h
