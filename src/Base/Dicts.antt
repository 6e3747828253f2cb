-- ===== src/Base/Dicts.antt =====
-- Go's `map[string]V` as an association list. Its order stands for the order in which a `range`
-- visits the keys, which Go leaves open.
use Prim.Native.String.{String}
use mathlib.Core.Path.{◌≡◌, refl}
use mathlib.Core.List.{List, [], ◌∷◌}
use mathlib.Core.Option.{Option, none, some}
use native.Mathlib.Omega.{arith}
use text.Mathlib.Text.{◌==◌}
use text.Mathlib.TextEquality.{eq_iff}
use text.Mathlib.TextPositions.{eq_refl}
use tailbus.Base.Tests.{if◌then◌else◌}

abbrev pub Dict {ℓ} : Type ℓ → Type ℓ
Dict V = List (String × V)

module _ {ℓ} {V : Type ℓ} where
  -- v, ok := d[key]
  unfoldable pub lookup : String → Dict V → Option V
  lookup key [] = none
  lookup key (e ∷ d) = if e.0 == key then some e.1 else lookup key d

  -- d[key] = x; the entry of a present key keeps its place.
  unfoldable pub insert : String → V → Dict V → Dict V
  insert key x [] = (key, x) ∷ []
  insert key x (e ∷ d) = if e.0 == key then (e.0, x) ∷ d else e ∷ insert key x d

  -- delete(d, key)
  unfoldable pub delete : String → Dict V → Dict V
  delete key [] = []
  delete key (e ∷ d) = if e.0 == key then delete key d else e ∷ delete key d

  pub lookup-insert :
      (key other : String) (x : V) (d : Dict V)
      → lookup other (insert key x d) ≡ (if key == other then some x else lookup other d)
  unfolding lookup insert
  lookup-insert key other x [] = refl
  lookup-insert key other x (e ∷ d) =
      let tail = lookup-insert key other x d in
      ground (arith, tail, eq_iff e.0 other, eq_iff e.0 key, eq_iff key other)

  pub lookup-delete :
      (key other : String) (d : Dict V)
      → lookup other (delete key d) ≡ (if key == other then none else lookup other d)
  unfolding lookup delete
  lookup-delete key other [] = ground arith
  lookup-delete key other (e ∷ d) =
      let tail = lookup-delete key other d in
      ground (arith, tail, eq_iff e.0 other, eq_iff e.0 key, eq_iff key other)

  pub lookup-insert_self :
      (key : String) (x : V) (d : Dict V) → lookup key (insert key x d) ≡ some x
  lookup-insert_self key x d = simp (lookup-insert, eq_refl)

  pub lookup-delete_self : (k : String) (m : Dict V) → lookup k (delete k m) ≡ none
  lookup-delete_self k m = simp (lookup-delete, eq_refl)

  -- No key twice, as in a Go map.
  abbrev pub IsMap : Dict V → Type ℓ
  IsMap [] = Unit {ℓ}
  IsMap ((k, v) ∷ m) = (lookup k m ≡ none) × IsMap m

  pub insert-IsMap : (k : String) (v : V) (m : Dict V) → IsMap m → IsMap (insert k v m)
  unfolding insert lookup
  insert-IsMap k v [] h = (refl, tt)
  insert-IsMap k v ((j, w) ∷ m) h =
      ground (arith, h.0, insert-IsMap k v m h.1, lookup-insert k j v m, eq_iff j k, eq_iff k j)

  pub delete-IsMap : (k : String) (m : Dict V) → IsMap m → IsMap (delete k m)
  unfolding delete
  delete-IsMap k [] h = tt
  delete-IsMap k ((j, w) ∷ m) h =
      ground (arith, h.0, delete-IsMap k m h.1, lookup-delete k j m, eq_iff j k, eq_iff k j)

pub ruleset dict_laws = (lookup-insert, lookup-delete, eq_refl)
