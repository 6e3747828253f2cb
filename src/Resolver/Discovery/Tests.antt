-- ===== src/Resolver/Discovery/Tests.antt =====
-- Runs of the search for handles (internal/handle/resolver.go).
use tailbus.Base.{◌⊎◌, none, ◌≡◌, String, some, List, [], ◌∷◌, Dict}
use tailbus.Resolver.{ServiceManifest}
use tailbus.Resolver.Discovery.{FindQuery, evaluate_match}
use tailbus.Resolver.Discovery.Exact.{Meets, outcome, evaluate_match-exact}

abbrev offers : List String → List String → ServiceManifest
offers tags capabilities = record {
  description = "";
  commands = [];
  tags = tags;
  version = "";
  capabilities = capabilities;
  domains = [];
  input_types = [];
  output_types = [];
}

abbrev entries : Dict ServiceManifest
entries =
    ("ann", offers ("fast" ∷ []) ("sum" ∷ []))
    ∷ ("bob", offers [] ("sum" ∷ []))
    ∷ ("cy", offers ("fast" ∷ []) [])
    ∷ []

abbrev query : FindQuery
query = record {
  capabilities = "sum" ∷ [];
  domains = [];
  tags = "fast" ∷ [];
  command_name = "";
  version = "";
  limit = 0;
}

abbrev ann : ServiceManifest
ann = offers ("fast" ∷ []) ("sum" ∷ [])

evaluate_match-exact_example :
    (Meets query ann × (outcome (evaluate_match "ann" ann query) ≡ some ("ann", 110)))
    ⊎ ((¬ Meets query ann) × (outcome (evaluate_match "ann" ann query) ≡ none))
evaluate_match-exact_example = evaluate_match-exact "ann" ann query
