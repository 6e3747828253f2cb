-- ===== src/Node/Mentions.antt =====
-- internal/daemon/agentserver.go, extractMentions: the handles that a text names, by the expression
-- @([a-z][a-z0-9_-]*). Texts are ASCII or any other Unicode: only the named characters count.
pub mod Exact
use Prim.Native.Char.{Char, code}
use tailbus.Base.{
  ◌≡◌, refl, ◌∙◌, String, Bool, false, ◌&&◌, ◌||◌, not, List, [], ◌∷◌, leb, eqb, contains, Distinct,
  arith, eq_iff, inl, inr, Bool-cases, if◌then◌else◌,
}

abbrev pub is_lower : Char → Bool
is_lower c = leb b'a' (code c) && leb (code c) b'z'

abbrev pub is_name_char : Char → Bool
is_name_char c =
    is_lower c || (leb b'0' (code c) && leb (code c) b'9') || eqb (code c) b'_' || eqb (code c) b'-'

-- The longest beginning of name characters.
unfoldable pub name_prefix : String → String
name_prefix String.[] = ""
name_prefix (String.◌∷◌ c s) = if is_name_char c then String.◌∷◌ c (name_prefix s) else ""

abbrev pub starts_lower : String → Bool
starts_lower String.[] = false
starts_lower (String.◌∷◌ c s) = is_lower c

-- The matches. No name holds an @, so that the next match may be sought from any place inside
-- one.
unfoldable pub find_all : String → List String
find_all String.[] = []
find_all (String.◌∷◌ c s) =
    let rest = find_all s in
    if eqb (code c) b'@' && starts_lower s then name_prefix s ∷ rest else rest

-- The matches that are neither skipped nor seen before.
unfoldable pub fresh_names : List String → List String → List String
fresh_names seen [] = []
fresh_names seen (h ∷ hs) =
    let again = fresh_names seen hs in
    let first = fresh_names (h ∷ seen) hs in if contains seen h then again else h ∷ first

unfoldable pub extract_mentions : String → List String → List String
extract_mentions text skip = fresh_names skip (find_all text)

pub contains-fresh_names :
    (seen hs : List String) (h : String)
    → contains (fresh_names seen hs) h ≡ (contains hs h && not (contains seen h))
unfolding fresh_names contains
contains-fresh_names seen [] h = refl
contains-fresh_names seen (x ∷ hs) h =
    ground (arith, contains-fresh_names seen hs h, contains-fresh_names (x ∷ seen) hs h, eq_iff x h)

pub fresh_names-Distinct : (seen hs : List String) → Distinct (fresh_names seen hs)
unfolding fresh_names contains
fresh_names-Distinct seen [] = tt
fresh_names-Distinct seen (x ∷ hs) = elim (Bool-cases (contains seen x)) [
  | inl e ↦ rw (e, fresh_names) (fresh_names-Distinct seen hs)
  | inr e ↦
      rw (e, fresh_names)
        (
          contains-fresh_names (x ∷ seen) hs x ∙ ground (arith, eq_iff x x),
          fresh_names-Distinct (x ∷ seen) hs,
        )
]
