-- ===== src/Node/Mentions/Exact.antt =====
-- What a match of the expression @([a-z][a-z0-9_-]*) is, apart from the code that seeks it
-- (internal/daemon/agentserver.go, extractMentions).
use Prim.Native.Char.{Char, code}
use Prim.Native.String.{◌++◌}
use Prim.Native.String.append
use tailbus.Base.{
  ◌≤◌, ◌≡◌, refl, sym, subst, ap, ◌∙◌, String, true, false, ◌&&◌, List, eqb, ◌==◌, contains,
  Distinct, arith, eq_iff, inl, inr, ◌⊎◌, Bool-cases,
}
use tailbus.Node.Mentions.{
  is_name_char, name_prefix, starts_lower, find_all, extract_mentions, fresh_names-Distinct,
  contains-fresh_names,
}

abbrev pub Lower : Char → Type 0
Lower c = (b'a' ≤ code c) × (code c ≤ b'z')

abbrev pub NameChar : Char → Type 0
NameChar c = Lower c ⊎ (((b'0' ≤ code c) × (code c ≤ b'9')) ⊎ ((code c ≡ b'_') ⊎ (code c ≡ b'-')))

abbrev pub AllName : String → Type 0
AllName String.[] = Unit {0}
AllName (String.◌∷◌ c s) = NameChar c × AllName s

abbrev pub StartsLower : String → Type 0
StartsLower String.[] = ⊥
StartsLower (String.◌∷◌ c s) = Lower c

-- Nothing follows that would make a name longer.
abbrev pub Ends : String → Type 0
Ends String.[] = Unit {0}
Ends (String.◌∷◌ c s) = ¬ NameChar c

-- A name stands in a text after an @: it begins with a lower-case letter, it has letters, digits, _ and
-- - only, and it is as long as it can be.
abbrev pub Mentions : String → String → Type 0
Mentions h text =
    (before : String) × (at : Char) × (rest : String) × (text ≡ before ++ String.◌∷◌ at (h ++ rest))
    × (code at ≡ b'@')
    × StartsLower h
    × AllName h
    × Ends rest

nil_append : (t : String) → "" ++ t ≡ t
nil_append t = λ i. append.nil t i

cons_append : (c : Char) (s t : String) → String.◌∷◌ c s ++ t ≡ String.◌∷◌ c (s ++ t)
cons_append c s t = λ i. append.cons c s t i

is_name_char-NameChar : (c : Char) → is_name_char c ≡ true → NameChar c
is_name_char-NameChar c h = ground arith

NameChar-is_name_char : (c : Char) → NameChar c → is_name_char c ≡ true
NameChar-is_name_char c h = ground arith

not_NameChar : (c : Char) → is_name_char c ≡ false → ¬ NameChar c
not_NameChar c h n = ground (arith, h, NameChar-is_name_char c n)

-- The name that a text begins with, and what is left.
name_prefix-split :
    (s : String)
    → (rest : String) × (s ≡ name_prefix s ++ rest) × AllName (name_prefix s) × Ends rest
unfolding name_prefix
name_prefix-split String.[] = ("", sym (nil_append ""), tt, tt)
name_prefix-split (String.◌∷◌ c s) = elim (Bool-cases (is_name_char c)) [
  | inr other ↦
      rw (other, name_prefix)
        (String.◌∷◌ c s, sym (nil_append (String.◌∷◌ c s)), tt, not_NameChar c other)
  | inl name ↦
      let (rest, split, all, ends) = name_prefix-split s in
      rw (name, name_prefix)
        (
          rest,
          ap (λ x. String.◌∷◌ c x) split ∙ sym (cons_append c (name_prefix s) rest),
          (is_name_char-NameChar c name, all),
          ends,
        )
]

name_prefix-StartsLower : (s : String) → starts_lower s ≡ true → StartsLower (name_prefix s)
unfolding name_prefix
name_prefix-StartsLower String.[] h = cc
name_prefix-StartsLower (String.◌∷◌ c s) h =
    let name : is_name_char c ≡ true = ground (arith, h) in
    rw (name, name_prefix) (ground (arith, h))

Mentions-further : (c : Char) (s h : String) → Mentions h s → Mentions h (String.◌∷◌ c s)
Mentions-further c s h (before, at, rest, split, is_at, starts, all, ends) = (
  String.◌∷◌ c before,
  at,
  rest,
  ap (λ x. String.◌∷◌ c x) split ∙ sym (cons_append c before (String.◌∷◌ at (h ++ rest))),
  is_at,
  starts,
  all,
  ends,
)

find_all-Mentions : (text h : String) → contains (find_all text) h ≡ true → Mentions h text
unfolding find_all contains
find_all-Mentions String.[] h found = cc
find_all-Mentions (String.◌∷◌ c s) h found =
    elim (Bool-cases (eqb (code c) b'@' && starts_lower s)) [
      | inr other ↦ Mentions-further c s h (find_all-Mentions s h (ground (arith, found, other)))
      | inl here ↦ elim (Bool-cases (name_prefix s == h)) [
        | inr other ↦
            Mentions-further c s h (find_all-Mentions s h (ground (arith, found, here, other)))
        | inl same ↦
            let (rest, split, all, ends) = name_prefix-split s in
            subst (λ n. Mentions n (String.◌∷◌ c s)) ((eq_iff (name_prefix s) h).0 same)
              (
                "",
                c,
                rest,
                ap (λ x. String.◌∷◌ c x) split ∙ sym (nil_append _),
                ground (arith, here),
                name_prefix-StartsLower s (ground (arith, here)),
                all,
                ends,
              )
      ]
    ]

name_prefix-append : (h rest : String) → AllName h → Ends rest → name_prefix (h ++ rest) ≡ h
unfolding name_prefix
name_prefix-append String.[] String.[] all ends = rw (nil_append "") refl
name_prefix-append String.[] (String.◌∷◌ c s) all ends =
    rw (nil_append (String.◌∷◌ c s)) (elim (Bool-cases (is_name_char c)) [
      | inl name ↦ absurd (ends (is_name_char-NameChar c name))
      | inr other ↦ rw (other, name_prefix) refl
    ])
name_prefix-append (String.◌∷◌ c h) rest (name, all) ends =
    rw (cons_append c h rest, NameChar-is_name_char c name, name_prefix)
      (ap (λ x. String.◌∷◌ c x) (name_prefix-append h rest all ends))

starts_lower-append : (h rest : String) → StartsLower h → starts_lower (h ++ rest) ≡ true
starts_lower-append String.[] rest starts = absurd starts
starts_lower-append (String.◌∷◌ c h) rest starts = rw (cons_append c h rest) (ground arith)

Mentions-find_all :
    (before : String) (at : Char) (h rest : String)
    → code at ≡ b'@'
    → StartsLower h
    → AllName h
    → Ends rest
    → contains (find_all (before ++ String.◌∷◌ at (h ++ rest))) h ≡ true
unfolding find_all contains
Mentions-find_all String.[] at h rest is_at starts all ends =
    rw (nil_append (String.◌∷◌ at (h ++ rest))) (
      ground (
        arith,
        is_at,
        starts_lower-append h rest starts,
        name_prefix-append h rest all ends,
        eq_iff h h,
      ))
Mentions-find_all (String.◌∷◌ c before) at h rest is_at starts all ends =
    rw (cons_append c before (String.◌∷◌ at (h ++ rest)))
      (ground (arith, Mentions-find_all before at h rest is_at starts all ends))

-- The mentions of a text are the names that stand in it after an @, less the skipped ones, and each
-- stands once: a name begins with a lower-case letter, has lower-case letters, digits, _ and - only, and
-- is as long as it can be.
pub extract_mentions-exact :
    (text : String) (skip : List String)
    → Distinct (extract_mentions text skip)
      × ((h : String)
          → ((contains (extract_mentions text skip) h ≡ true)
              → Mentions h text × (contains skip h ≡ false))
            × (Mentions h text
                → contains skip h ≡ false
                → contains (extract_mentions text skip) h ≡ true))
unfolding extract_mentions
extract_mentions-exact text skip = (
  fresh_names-Distinct skip (find_all text),
  λ h. (
    λ found. (
      find_all-Mentions text h (ground (arith, found, contains-fresh_names skip (find_all text) h)),
      ground (arith, found, contains-fresh_names skip (find_all text) h),
    ),
    λ (before, at, rest, split, is_at, starts, all, ends) fresh. ground (
      arith,
      fresh,
      contains-fresh_names skip (find_all text) h,
      subst (λ s. contains (find_all s) h ≡ true) (sym split)
          (Mentions-find_all before at h rest is_at starts all ends),
    ),
  ),
)
