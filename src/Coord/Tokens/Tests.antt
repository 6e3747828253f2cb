-- ===== src/Coord/Tokens/Tests.antt =====
-- Runs of the admission (internal/coord/admission.go).
use tailbus.Base.{◌≤◌, refl, true, none, some, [], ◌∷◌, lookup}
use tailbus.Coord.Tokens.{Token, Admission}
use tailbus.Coord.Tokens.SingleUse.{consumptions, single_use_once}

abbrev token : Token
token = record { name = "first"; single_use = true; used_by = none; expires_at = some 100 }

single_use_once_example :
    consumptions "h1" (("h1", "n1", 50) ∷ ("h1", "n2", 60) ∷ []) (("h1", token) ∷ []) ≤ 1
unfolding lookup
single_use_once_example =
    single_use_once "h1" (("h1", "n1", 50) ∷ ("h1", "n2", 60) ∷ []) token (("h1", token) ∷ []) refl
      refl

-- A server with one token, whose hash stands for the token itself.
abbrev closed_server : Admission
closed_server = record { hash = λ raw. raw; jwt = none; tokens = ("h1", token) ∷ []; bound = [] }
