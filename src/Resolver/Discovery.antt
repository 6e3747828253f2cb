-- ===== src/Resolver/Discovery.antt =====
-- internal/handle/resolver.go, FindMatches: the search for handles by what they offer. sort.Slice is
-- an insertion sort here; the order has no ties between different handles, so that any sort gives the
-- same list.
pub mod Exact
pub mod Ranking
mod Tests
use Prim.Native.String.{compare}
use text.Mathlib.Text.{is_lt}
use tailbus.Base.{
  concat, ℕ, ◌+◌, ◌*◌, String, Bool, true, false, ◌==◌, ◌&&◌, ◌||◌, not, Option, none, some, List,
  [], ◌∷◌, ◌++◌, ltb, eqb, length, contains, take, if◌then◌else◌, Dict,
}
use tailbus.Resolver.{CommandSpec, ServiceManifest, PeerInfo, Resolver}

pub record FindQuery : Type 0 where
  pub capabilities : List String
  pub domains : List String
  pub tags : List String
  pub command_name : String
  pub version : String
  pub limit : ℕ

pub record HandleMatch : Type 0 where
  pub handle : String
  pub manifest : ServiceManifest
  pub score : ℕ
  pub match_reasons : List String

unfoldable pub contains_all : List String → List String → Bool
contains_all values [] = true
contains_all values (needed ∷ rest) = contains values needed && contains_all values rest

unfoldable pub has_command : List CommandSpec → String → Bool
has_command [] name = false
has_command (c ∷ cs) name = c.name == name || has_command cs name

-- One loop over what is required: its weight and its reason for each.
unfoldable pub credit : ℕ → String → List String → HandleMatch → HandleMatch
credit weight kind [] m = m
credit weight kind (x ∷ xs) m =
    credit weight kind xs
      (record m { score = m.score + weight; match_reasons = m.match_reasons ++ concat kind x ∷ [] })

abbrev pub match_version : FindQuery → ServiceManifest → HandleMatch → Option HandleMatch
match_version q manifest m =
    if q.version == ""
    then some m
    else if not (manifest.version == q.version)
    then none
    else some (credit 10 "version:" (q.version ∷ []) m)

abbrev pub match_command : FindQuery → ServiceManifest → HandleMatch → Option HandleMatch
match_command q manifest m =
    if q.command_name == ""
    then match_version q manifest m
    else if not (has_command manifest.commands q.command_name)
    then none
    else match_version q manifest (credit 20 "command:" (q.command_name ∷ []) m)

abbrev pub match_tags : FindQuery → ServiceManifest → HandleMatch → Option HandleMatch
match_tags q manifest m =
    if not (contains_all manifest.tags q.tags)
    then none
    else match_command q manifest (credit 10 "tag:" q.tags m)

abbrev pub match_domains : FindQuery → ServiceManifest → HandleMatch → Option HandleMatch
match_domains q manifest m =
    if not (contains_all manifest.domains q.domains)
    then none
    else match_tags q manifest (credit 30 "domain:" q.domains m)

unfoldable pub evaluate_match : String → ServiceManifest → FindQuery → Option HandleMatch
evaluate_match handle manifest q =
    let m : HandleMatch = record {
      handle = handle;
      manifest = manifest;
      score = 0;
      match_reasons = [];
    } in
    if not (contains_all manifest.capabilities q.capabilities)
    then none
    else match_domains q manifest (credit 100 "capability:" q.capabilities m)

abbrev pub cons_match : Option HandleMatch → List HandleMatch → List HandleMatch
cons_match none ms = ms
cons_match (some m) ms = m ∷ ms

unfoldable pub collect_matches : Dict ServiceManifest → FindQuery → List HandleMatch
collect_matches [] q = []
collect_matches ((handle, manifest) ∷ rest) q =
    cons_match (evaluate_match handle manifest q) (collect_matches rest q)

-- The order of the sort: by score from the top, then by handle.
abbrev pub before : HandleMatch → HandleMatch → Bool
before a b = ltb b.score a.score || (eqb a.score b.score && is_lt (compare a.handle b.handle))

unfoldable pub insert_match : HandleMatch → List HandleMatch → List HandleMatch
insert_match x [] = x ∷ []
insert_match x (y ∷ ys) =
    let rest = insert_match x ys in if before x y then x ∷ y ∷ ys else y ∷ rest

unfoldable pub sort_matches : List HandleMatch → List HandleMatch
sort_matches [] = []
sort_matches (x ∷ xs) = insert_match x (sort_matches xs)

abbrev pub limited : ℕ → List HandleMatch → List HandleMatch
limited limit matches =
    if ltb 0 limit && ltb limit (length matches) then take limit matches else matches

unfoldable pub find_matches : Dict ServiceManifest → FindQuery → List HandleMatch
find_matches entries q = limited q.limit (sort_matches (collect_matches entries q))

unfoldable pub manifests_of : Dict PeerInfo → Dict ServiceManifest
manifests_of [] = []
manifests_of ((handle, info) ∷ rest) = (handle, info.manifest) ∷ manifests_of rest

abbrev pub find_handles : FindQuery → Resolver → List HandleMatch
find_handles q r = find_matches (manifests_of r.handle_to) q
