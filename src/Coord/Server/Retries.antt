-- ===== src/Coord/Server/Retries.antt =====
-- A registration uses its single-use token up before it is decided (internal/coord/admission.go,
-- internal/coord/server.go).
use tailbus.Base.{
  ℕ, ◌≡◌, ◌≢◌, refl, ◌∙◌, String, Bool, true, false, ◌==◌, none, some, [], ◌∷◌, Result, ok, err,
  Dict, lookup, insert, lookup-insert_self, arith, inl, inr, ◌⊎◌, Bool-cases, List, subst, sym,
}
use tailbus.Coord.Tokens.{
  Token, validate_registration, Admission, AdmissionResult, TokenError, is_expired, is_used,
  has_auth_tokens, admit_consumed, admit_shared, admit_by, validate_and_consume_token, expired,
  already_used, token_required,
}
use tailbus.Coord.Tokens.SingleUse.{consume-Spent}
use tailbus.Coord.Registry.{RegistryError, NodeStore}
use tailbus.Coord.Registry.Calls
use tailbus.Coord.Server.{
  Server, RegisterNodeRequest, Draws, team_for, outside_team, record_for, finish_registration,
  register_admitted, register_node, not_admitted,
}

some_tokens :
    (hash : String) (t : Token) (d : Dict Token) → lookup hash d ≡ some t → has_auth_tokens d ≡ true
unfolding lookup
some_tokens hash t [] e = cc
some_tokens hash t (x ∷ d) e = refl

abbrev Refused : Result TokenError AdmissionResult → Type 0
Refused r = (e : TokenError) × (r ≡ err e)

module _ (a : Admission) (token : String) (t : Token) (no_jwt : a.jwt ≡ none)
    (found : lookup (a.hash token) a.tokens ≡ some t) (single : t.single_use ≡ true) where
  -- A token that has been used is refused.
  used-Refused :
      (node : String) (now : ℕ)
      → is_used t.used_by ≡ true
      → Refused (validate_registration token node now a).0
  unfolding validate_registration validate_and_consume_token
  used-Refused node now used =
      rw (no_jwt, some_tokens (a.hash token) t a.tokens found)
        (elim (Bool-cases (token == "")) [
          | inl empty ↦ rw empty (token_required, refl)
          | inr given ↦
              rw (given, found)
                (elim (Bool-cases (is_expired t.expires_at now)) [
                  | inl late ↦ rw late (expired t.name, refl)
                  | inr fresh ↦ (already_used t.name, ground (arith, fresh, single, used))
                ])
        ])

  -- One that is accepted is used from then on.
  accepted_used :
      (node : String) (now : ℕ)
      → Refused (validate_registration token node now a).0
        ⊎ ((validate_registration token node now a).1 ≡ record a {
          tokens = insert (a.hash token) (record t { used_by = some node }) a.tokens;
        })
  unfolding validate_registration validate_and_consume_token
  accepted_used node now =
      rw (no_jwt, some_tokens (a.hash token) t a.tokens found)
        (elim (Bool-cases (token == "")) [
          | inl empty ↦ rw empty (inl (token_required, refl))
          | inr given ↦
              rw (given, found)
                (elim (Bool-cases (is_expired t.expires_at now)) [
                  | inl late ↦ rw late (inl (expired t.name, refl))
                  | inr fresh ↦ elim (Bool-cases (is_used t.used_by)) [
                    | inl used ↦ inl (already_used t.name, ground (arith, fresh, single, used))
                    | inr free ↦ inr (ground (arith, fresh, single, free))
                  ]
                ])
        ])

-- A single-use token that has been used.
abbrev Over : String → Admission → Type 0
Over token a =
    (a.jwt ≡ none)
    × ((t : Token) × (lookup (a.hash token) a.tokens ≡ some t)
        × (t.single_use ≡ true)
        × (is_used t.used_by ≡ true))

consumed-Over :
    (token h node : String) (now : ℕ) (a : Admission)
    → Over token a
    → Over token (record a { tokens = (validate_and_consume_token h node now a.tokens).1 })
consumed-Over token h node now a (no_jwt, (t, found, single, used)) =
    elim (consume-Spent (a.hash token) h node now t a.tokens found single) [
      | inl (skipped, same) ↦ (no_jwt, (t, same, single, used))
      | inr (taken, fresh, rest) ↦ ground (arith, fresh, used)
    ]

admit_consumed_admission :
    (r : Result TokenError (Unit {0}) × Dict Token) (a : Admission)
    → (admit_consumed r a).1 ≡ record a { tokens = r.1 }
admit_consumed_admission (err e, d) a = refl
admit_consumed_admission (ok _, d) a = refl

admit_shared-Over :
    (token offered node : String) (now : ℕ) (a : Admission)
    → Over token a
    → Over token (admit_shared false offered node now a).1
admit_shared-Over token offered node now a over =
    let (no_jwt, (t, found, single, used)) = over in
    rw (some_tokens (a.hash token) t a.tokens found) (elim (Bool-cases (offered == "")) [
      | inl empty ↦ rw empty over
      | inr given ↦
          rw
            (
              given,
              admit_consumed_admission
                  (validate_and_consume_token (a.hash offered) node now a.tokens) a,
            )
            (consumed-Over token (a.hash offered) node now a over)
    ])

-- No registration makes it fit for use again.
validate_registration-Over :
    (token offered node : String) (now : ℕ) (a : Admission)
    → Over token a
    → Over token (validate_registration offered node now a).1
unfolding validate_registration
validate_registration-Over token offered node now a over =
    subst (λ j. Over token (admit_by j offered node now a).1) (sym over.0)
      (admit_shared-Over token offered node now a over)

-- The admission of the server after a registration.
admission_after :
    (sha256 : String → String) (fails : String → Bool) (req : RegisterNodeRequest) (now : ℕ)
    (res : Result TokenError AdmissionResult) (s : Server)
    → (register_admitted sha256 fails req now res s).1.admission ≡ s.admission
admission_after sha256 fails req now (err e) s = refl
admission_after sha256 fails req now (ok res) s =
    elim (Bool-cases (outside_team (team_for req res) res s.teams)) [
      | inl outside ↦ rw outside refl
      | inr inside ↦
          rw inside
            (decided (Calls.register_node (record_for req (team_for req res) now) s.tables.nodes))
    ]
  where
    decided :
        (reply : Result RegistryError (Unit {0}) × NodeStore)
        → (finish_registration sha256 fails req (team_for req res) res reply s).1.admission
          ≡ s.admission
    decided (err e, nodes) = refl
    decided (ok _, nodes) = refl

module _ (sha256 : String → String) (fails : String → Bool) where
  -- The server after some registrations.
  unfoldable pub registrations : List (Draws × RegisterNodeRequest × ℕ) → Server → Server
  registrations [] s = s
  registrations ((draws, req, now) ∷ rest) s =
      registrations rest (register_node sha256 fails draws req now s).1

  register_node_admission :
      (draws : Draws) (req : RegisterNodeRequest) (now : ℕ) (s : Server)
      → (register_node sha256 fails draws req now s).1.admission
        ≡ (validate_registration req.auth_token req.node_id now s.admission).1
  unfolding register_node
  register_node_admission draws req now s = admission_after sha256 fails req now _ _

  registrations-Over :
      (token : String) (between : List (Draws × RegisterNodeRequest × ℕ)) (s : Server)
      → Over token s.admission
      → Over token (registrations between s).admission
  unfolding registrations
  registrations-Over token [] s over = over
  registrations-Over token ((draws, req, now) ∷ rest) s over = registrations-Over token rest _ (
      subst (λ a. Over token a) (sym (register_node_admission draws req now s))
        (validate_registration-Over token req.auth_token req.node_id now s.admission over))

  spent_not_admitted :
      (draws : Draws) (req : RegisterNodeRequest) (now : ℕ) (s : Server)
      → Over req.auth_token s.admission
      → (e : TokenError) × ((register_node sha256 fails draws req now s).0 ≡ err (not_admitted e))
  unfolding register_node
  spent_not_admitted draws req now s (no_jwt, (t, found, single, used)) =
      let (e, refused) =
        used-Refused s.admission req.auth_token t no_jwt found single req.node_id now used in
      (e, rw refused refl)

  -- On a server without an issuer of user tokens, a single-use token that a registration has got past
  -- the admission with is spent, even if the registration is refused after that: whatever
  -- registrations come between, every later one with it is not admitted, that of the same node included.
  pub spent_by_first :
      (draws draws' : Draws) (req again : RegisterNodeRequest) (now later : ℕ)
      (between : List (Draws × RegisterNodeRequest × ℕ)) (s : Server) (t : Token)
      → s.admission.jwt ≡ none
      → lookup (s.admission.hash req.auth_token) s.admission.tokens ≡ some t
      → t.single_use ≡ true
      → ((e : TokenError) → (register_node sha256 fails draws req now s).0 ≢ err (not_admitted e))
      → again.auth_token ≡ req.auth_token
      → let s' = registrations between (register_node sha256 fails draws req now s).1 in
        (e : TokenError) × ((register_node sha256 fails draws' again later s').0
          ≡ err (not_admitted e))
  unfolding register_node
  spent_by_first draws draws' req again now later between s t no_jwt found single past same =
      elim (accepted_used s.admission req.auth_token t no_jwt found single req.node_id now) [
        | inl (e, refused) ↦ absurd (past e (rw refused refl))
        | inr marked ↦
            let t' = record t { used_by = some req.node_id } in
            let key = s.admission.hash req.auth_token in
            let over : Over req.auth_token
                (record s.admission { tokens = insert key t' s.admission.tokens }) =
              (no_jwt, (t', lookup-insert_self key t' s.admission.tokens, single, refl)) in
            let s1 = (register_node sha256 fails draws req now s).1 in
            let s' = registrations between s1 in
            spent_not_admitted draws' again later s' (
              subst (λ k. Over k s'.admission) (sym same)
                (registrations-Over req.auth_token between s1 (
                  subst (λ a. Over req.auth_token a)
                    (sym (register_node_admission draws req now s ∙ marked)) over)))
      ]
