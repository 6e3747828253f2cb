-- ===== src/Coord/Tokens.antt =====
-- Admission tokens: the table of internal/coord/store.go by its unique token hash, and
-- internal/coord/admission.go. A JWT is validated by a parameter, since its signature is the
-- crypto library's. Times are seconds.
pub mod SingleUse
pub mod Admitted
mod Tests
use text.Mathlib.Text.{starts_with}
use tailbus.Base.{
  ℕ, ◌+◌, String, Bool, true, false, ◌==◌, ◌||◌, ◌&&◌, not, Option, none, some, List, [], ◌∷◌, ◌++◌,
  Result, ok, err, ltb, if◌then◌else◌, Dict, lookup, insert, delete,
}

pub record Token : Type 0 where
  pub name : String
  pub single_use : Bool
  pub used_by : Option String
  pub expires_at : Option ℕ

pub data TokenError : Type 0 where
  duplicate invalid_token token_required : TokenError
  expired already_used : String → TokenError
  invalid_jwt : TokenError
  not_an_access_token : String → TokenError

-- The names are unique, too.
unfoldable pub token_name_taken : String → Dict Token → Bool
token_name_taken name [] = false
token_name_taken name ((hash, t) ∷ rest) = t.name == name || token_name_taken name rest

abbrev pub known : Option Token → Bool
known none = false
known (some _) = true

unfoldable pub insert_auth_token :
    String → String → Bool → Option ℕ → Dict Token → Result TokenError (Unit {0}) × Dict Token
insert_auth_token name hash single_use expires_at d =
    if known (lookup hash d) || token_name_taken name d then (err duplicate, d) else (
      ok tt,
      insert hash
          (record { name = name; single_use = single_use; used_by = none; expires_at = expires_at })
          d,
    )

abbrev pub is_expired : Option ℕ → ℕ → Bool
is_expired none now = false
is_expired (some t) now = ltb t now

abbrev pub is_used : Option String → Bool
is_used none = false
is_used (some _) = true

abbrev pub consume_row :
    String → String → ℕ → Option Token → Dict Token → Result TokenError (Unit {0}) × Dict Token
consume_row hash node now none d = (err invalid_token, d)
consume_row hash node now (some t) d =
    if is_expired t.expires_at now
    then (err (expired t.name), d)
    else if t.single_use && is_used t.used_by
    then (err (already_used t.name), d)
    else (ok tt, if t.single_use then insert hash (record t { used_by = some node }) d else d)

unfoldable pub validate_and_consume_token :
    String → String → ℕ → Dict Token → Result TokenError (Unit {0}) × Dict Token
validate_and_consume_token hash node now d = consume_row hash node now (lookup hash d) d

abbrev pub has_auth_tokens : Dict Token → Bool
has_auth_tokens [] = false
has_auth_tokens (_ ∷ _) = true

-- DELETE FROM auth_tokens WHERE name = ?
unfoldable pub revoke_auth_token : String → Dict Token → Dict Token
revoke_auth_token name [] = []
revoke_auth_token name ((hash, t) ∷ rest) =
    let kept = revoke_auth_token name rest in if t.name == name then kept else (hash, t) ∷ kept

pub record Claims : Type 0 where
  pub email : String
  pub team_id : String
  pub token_type : String

pub record AdmissionResult : Type 0 where
  pub email : String
  pub team_id : String

-- `hash` is HashToken; `jwt` is the validation of the issuer, if one is set; `bound` lists the nodes
-- that have been bound to a user, with the user. The personal team that this path may create is a part of
-- the registration in Coord.Server; the upsert of the user, whose failure is only logged, is left out.
pub record Admission : Type 0 where
  pub hash : String → String
  pub jwt : Option (String → Option Claims)
  pub tokens : Dict Token
  pub bound : List (String × String)

abbrev pub no_identity : AdmissionResult
no_identity = record { email = ""; team_id = "" }

abbrev pub admit_claims :
    String → Option Claims → Admission → Result TokenError AdmissionResult × Admission
admit_claims node none a = (err invalid_jwt, a)
admit_claims node (some c) a =
    if not (c.token_type == "access") then (err (not_an_access_token c.token_type), a) else (
      ok (record { email = c.email; team_id = c.team_id }),
      record a { bound = a.bound ++ (node, c.email) ∷ [] },
    )

abbrev pub admit_consumed :
    Result TokenError (Unit {0}) × Dict Token
    → Admission
    → Result TokenError AdmissionResult × Admission
admit_consumed (err e, d) a = (err e, record a { tokens = d })
admit_consumed (ok _, d) a = (ok no_identity, record a { tokens = d })

-- The path of a pre-shared token; `oauth` says whether an issuer is set.
abbrev pub admit_shared :
    Bool → String → String → ℕ → Admission → Result TokenError AdmissionResult × Admission
admit_shared oauth token node now a =
    if not (has_auth_tokens a.tokens) && not oauth
    then (ok no_identity, a)
    else if token == ""
    then (err token_required, a)
    else admit_consumed (validate_and_consume_token (a.hash token) node now a.tokens) a

abbrev pub admit_by :
    Option (String → Option Claims)
    → String
    → String
    → ℕ
    → Admission
    → Result TokenError AdmissionResult × Admission
admit_by none token node now a = admit_shared false token node now a
admit_by (some validate) token node now a =
    if starts_with token "eyJ"
    then admit_claims node (validate token) a
    else admit_shared true token node now a

unfoldable pub validate_registration :
    String → String → ℕ → Admission → Result TokenError AdmissionResult × Admission
validate_registration token node now a = admit_by a.jwt token node now a
