-- ===== src/Resolver/Discovery/Ranking.antt =====
-- Which handles a search lists, and in what order (internal/handle/resolver.go).
use tailbus.Base.{
  zero, suc, subst, ◌<◌, ℕ, ◌+◌, ◌≤◌, ◌≡◌, refl, sym, ap, ◌∙◌, String, Bool, true, false, ◌==◌,
  ◌&&◌, ◌||◌, eq_iff, Option, none, some, List, [], ◌∷◌, arith, inl, inr, Bool-cases, ltb, length,
  length-take, take, contains, if◌then◌else◌, Dict, lookup, IsMap,
}
use tailbus.Resolver.{ServiceManifest}
use tailbus.Resolver.Discovery.{
  FindQuery, HandleMatch, evaluate_match, cons_match, collect_matches, before, insert_match,
  sort_matches, limited, find_matches,
}
use tailbus.Resolver.Discovery.Exact.{meets, full_score, outcome, found_if, evaluate_match-met}

abbrev pub names : List HandleMatch → List String
names [] = []
names (m ∷ ms) = m.handle ∷ names ms

contains-insert_match :
    (x : HandleMatch) (ms : List HandleMatch) (h : String)
    → contains (names (insert_match x ms)) h ≡ (x.handle == h || contains (names ms) h)
unfolding insert_match contains
contains-insert_match x [] h = refl
contains-insert_match x (y ∷ ys) h = elim (Bool-cases (before x y)) [
  | inl e ↦ rw (e, insert_match) refl
  | inr e ↦ rw (e, insert_match) (ground (arith, contains-insert_match x ys h))
]

contains-sort_matches :
    (ms : List HandleMatch) (h : String)
    → contains (names (sort_matches ms)) h ≡ contains (names ms) h
unfolding sort_matches contains
contains-sort_matches [] h = refl
contains-sort_matches (m ∷ ms) h =
    contains-insert_match m (sort_matches ms) h
    ∙ ap (λ b. m.handle == h || b) (contains-sort_matches ms h)

-- Whether the outcome names the handle.
abbrev named : String → Option (String × ℕ) → Bool
named h none = false
named h (some (k, n)) = k == h

contains-cons_match :
    (o : Option HandleMatch) (ms : List HandleMatch) (h : String)
    → contains (names (cons_match o ms)) h ≡ (named h (outcome o) || contains (names ms) h)
unfolding contains
contains-cons_match none ms h = refl
contains-cons_match (some m) ms h = refl

named-found_if : (b : Bool) (k h : String) (n : ℕ) → named h (found_if b k n) ≡ (b && (k == h))
named-found_if true k h n = refl
named-found_if false k h n = refl

-- Whether an entry of the map meets the query.
abbrev pub asked : FindQuery → Option ServiceManifest → Bool
asked q none = false
asked q (some m) = meets q m

contains-collect_matches :
    (entries : Dict ServiceManifest) (q : FindQuery) (h : String)
    → IsMap entries
    → contains (names (collect_matches entries q)) h ≡ asked q (lookup h entries)
unfolding collect_matches contains lookup
contains-collect_matches [] q h d = refl
contains-collect_matches ((k, m) ∷ rest) q h d =
    contains-cons_match (evaluate_match k m q) (collect_matches rest q) h
    ∙ ap (λ o. named h o || contains (names (collect_matches rest q)) h) (evaluate_match-met k m q)
    ∙ ap (λ b. b || contains (names (collect_matches rest q)) h)
        (named-found_if (meets q m) k h (full_score q))
    ∙ ap (λ b. (meets q m && (k == h)) || b) (contains-collect_matches rest q h d.1)
    ∙ elim (Bool-cases (k == h)) [
      | inl e ↦ first e
      | inr e ↦ rw e (other (meets q m) (asked q (lookup h rest)))
    ]
  where
    absent : (o : Option ServiceManifest) → o ≡ none → asked q o ≡ false
    absent none e = refl
    absent (some v) e = cc

    first :
        (k == h) ≡ true
        → ((meets q m && (k == h)) || asked q (lookup h rest))
          ≡ asked q (if k == h then some m else lookup h rest)
    first e =
        let gone : lookup h rest ≡ none = ground (arith, d.0, eq_iff k h, e) in
        rw (e, absent (lookup h rest) gone) (same (meets q m))
      where
        same : (b : Bool) → ((b && true) || false) ≡ b
        same true = refl
        same false = refl

    other : (b c : Bool) → ((b && false) || c) ≡ c
    other true c = refl
    other false c = refl

-- Without a limit a search lists exactly the handles whose manifests meet the query.
pub find_matches-listed :
    (entries : Dict ServiceManifest) (q : FindQuery) (h : String)
    → IsMap entries
    → q.limit ≡ 0
    → contains (names (find_matches entries q)) h ≡ asked q (lookup h entries)
unfolding find_matches
find_matches-listed entries q h d e =
    subst
      (λ l.
        contains (names (limited l (sort_matches (collect_matches entries q)))) h
        ≡ asked q (lookup h entries))
      (sym e)
      (contains-sort_matches (collect_matches entries q) h ∙ contains-collect_matches entries q h d)

-- Scores that do not rise, from at most `n`.
abbrev pub Ranked : ℕ → List HandleMatch → Type 0
Ranked n [] = Unit {0}
Ranked n (m ∷ ms) = (m.score ≤ n) × Ranked m.score ms

abbrev pub Descending : List HandleMatch → Type 0
Descending [] = Unit {0}
Descending (m ∷ ms) = Ranked m.score ms

insert-Ranked :
    (x : HandleMatch) (n : ℕ) (ms : List HandleMatch)
    → x.score ≤ n
    → Ranked n ms
    → Ranked n (insert_match x ms)
unfolding insert_match
insert-Ranked x n [] h r = (h, tt)
insert-Ranked x n (y ∷ ys) h r = elim (Bool-cases (before x y)) [
  | inl e ↦ rw (e, insert_match) (h, (ground (arith, e), r.1))
  | inr e ↦ rw (e, insert_match) (r.0, insert-Ranked x y.score ys (ground (arith, e)) r.1)
]

total : List HandleMatch → ℕ
total [] = 0
total (m ∷ ms) = m.score + total ms

weaken : (n k : ℕ) (ms : List HandleMatch) → Ranked n ms → Ranked (k + n) ms
weaken n k [] r = tt
weaken n k (m ∷ ms) r = (ground (arith, r.0), r.1)

sort-Ranked : (ms : List HandleMatch) → Ranked (total ms) (sort_matches ms)
unfolding sort_matches total
sort-Ranked [] = tt
sort-Ranked (m ∷ ms) =
    insert-Ranked m (m.score + total ms) (sort_matches ms) (omega arith)
      (weaken (total ms) m.score (sort_matches ms) (sort-Ranked ms))

take-Ranked : (k n : ℕ) (ms : List HandleMatch) → Ranked n ms → Ranked n (take k ms)
take-Ranked zero n ms r = tt
take-Ranked (suc k) n [] r = tt
take-Ranked (suc k) n (m ∷ ms) r = (r.0, take-Ranked k m.score ms r.1)

Ranked-Descending : (n : ℕ) (ms : List HandleMatch) → Ranked n ms → Descending ms
Ranked-Descending n [] r = tt
Ranked-Descending n (m ∷ ms) r = r.1

limited-fits :
    (limit n : ℕ) (ms : List HandleMatch)
    → Ranked n ms
    → Ranked n (limited limit ms) × (0 < limit → length (limited limit ms) ≤ limit)
limited-fits limit n ms r = elim (Bool-cases (ltb 0 limit && ltb limit (length ms))) [
  | inl e ↦ rw e (take-Ranked limit n ms r, λ h. omega (arith, length-take limit ms))
  | inr e ↦ rw e (r, λ h. ground (arith, e, h))
]

-- A search lists its matches by falling scores, and no more of them than its limit, if it has one.
pub find_matches-Descending :
    (entries : Dict ServiceManifest) (q : FindQuery)
    → Descending (find_matches entries q)
      × (0 < q.limit → length (find_matches entries q) ≤ q.limit)
unfolding find_matches
find_matches-Descending entries q =
    let ms = collect_matches entries q in
    let fits = limited-fits q.limit (total ms) (sort_matches ms) (sort-Ranked ms) in
    (Ranked-Descending (total ms) (limited q.limit (sort_matches ms)) fits.0, fits.1)
