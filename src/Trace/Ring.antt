-- ===== src/Trace/Ring.antt =====
-- The occupied slots of the ring, oldest first, and which position comes next
-- (internal/daemon/tracestore.go).
use tailbus.Base.{
  ℕ, zero, suc, ◌+◌, ◌-◌, ◌%◌, ◌<◌, ◌≡◌, ◌≢◌, refl, ap, Option, some, List, [], ◌∷◌, ◌++◌, arith,
  leb, eqb, length, get_elem?, set, All, if◌then◌else◌,
}
use tailbus.Trace.{TraceSpan}

abbrev pub Slot : Type 0
Slot = ℕ × TraceSpan

-- The next position, with no division.
abbrev pub after : ℕ → ℕ → ℕ
after cap p = if eqb (p + 1) cap then 0 else p + 1

pub mod-after : (cap p : ℕ) → p < cap → (p + 1) % cap ≡ after cap p
mod-after cap p h = grind arith

-- The slots run on from `p`, and the one after the last is `h`.
abbrev pub Chain : ℕ → ℕ → List Slot → ℕ → Type 0
Chain cap p [] h = p ≡ h
Chain cap p ((q, s) ∷ r) h = (q ≡ p) × Chain cap (after cap p) r h

pub Chain-snoc :
    (cap p h : ℕ) (r : List Slot) (s : TraceSpan)
    → Chain cap p r h
    → Chain cap p (r ++ (h, s) ∷ []) (after cap h)
Chain-snoc cap p h [] s c = ground arith
Chain-snoc cap p h ((q, t) ∷ r) s c = (c.0, Chain-snoc cap (after cap p) h r s c.1)

-- How far it is from `p` on to `h`.
abbrev gap : ℕ → ℕ → ℕ → ℕ
gap cap p h = if leb p h then h - p else h + cap - p

gap-after :
    (cap p h n : ℕ)
    → p < cap
    → h < cap
    → n ≡ gap cap (after cap p) h
    → n + 1 < cap
    → n + 1 ≡ gap cap p h
gap-after cap p h n a b e l = ground arith

Chain-length :
    (cap p h : ℕ) (r : List Slot)
    → p < cap
    → h < cap
    → Chain cap p r h
    → length r < cap
    → length r ≡ gap cap p h
Chain-length cap p h [] a b c l = ground arith
Chain-length cap p h ((q, s) ∷ r) a b c l =
    let ih = Chain-length cap (after cap p) h r (ground arith) b c.1 (omega arith) in
    let step = gap-after cap p h (length r) a b ih (omega arith) in omega arith

-- A ring that is not full has its head at a free position.
pub Chain-free :
    (cap p h : ℕ) (r : List Slot)
    → p < cap
    → h < cap
    → Chain cap p r h
    → length r < cap
    → All (λ (s : Slot). s.0 ≢ h) r
Chain-free cap p h [] a b c l = tt
Chain-free cap p h ((q, s) ∷ r) a b c l =
    let n = Chain-length cap p h ((q, s) ∷ r) a b c l in
    (ground (arith, n, c.0), Chain-free cap (after cap p) h r (ground arith) b c.1 (omega arith))

-- A full ring has its head at the oldest slot.
pub Chain-full :
    (cap p h : ℕ) (r : List Slot) → p < cap → h < cap → Chain cap p r h → length r ≡ cap → p ≡ h
Chain-full cap p h [] a b c l = c
Chain-full cap p h ((q, s) ∷ r) a b c l =
    let n = Chain-length cap (after cap p) h r (ground arith) b c.1 (omega arith) in
    ground (arith, n, l)

-- Each slot holds its span.
abbrev pub Holds : List (Option TraceSpan) → List Slot → Type 0
Holds spans = All (λ (s : Slot). get_elem? spans s.0 ≡ some (some s.1))

pub length-set {ℓ} : {A : Type ℓ} (xs : List A) (i : ℕ) (v : A) → length (set xs i v) ≡ length xs
length-set [] i v = refl
length-set (x ∷ xs) zero v = refl
length-set (x ∷ xs) (suc i) v = ap suc (length-set xs i v)

get_elem?-set_self {ℓ} :
    {A : Type ℓ} (xs : List A) (i : ℕ) (v : A) → i < length xs → get_elem? (set xs i v) i ≡ some v
get_elem?-set_self [] i v h = elim h [ ]
get_elem?-set_self (x ∷ xs) zero v h = refl
get_elem?-set_self (x ∷ xs) (suc i) v h = get_elem?-set_self xs i v (omega arith)

get_elem?-set_ne {ℓ} :
    {A : Type ℓ} (xs : List A) (i j : ℕ) (v : A) → j ≢ i → get_elem? (set xs i v) j ≡ get_elem? xs j
get_elem?-set_ne [] i j v h = refl
get_elem?-set_ne (x ∷ xs) zero zero v h = absurd (h refl)
get_elem?-set_ne (x ∷ xs) zero (suc j) v h = refl
get_elem?-set_ne (x ∷ xs) (suc i) zero v h = refl
get_elem?-set_ne (x ∷ xs) (suc i) (suc j) v h = get_elem?-set_ne xs i j v (λ e. h (ap suc e))

-- A write to a free position, and the new slot behind the others.
pub Holds-set :
    (spans : List (Option TraceSpan)) (h : ℕ) (s : TraceSpan) (r : List Slot)
    → h < length spans
    → All (λ (t : Slot). t.0 ≢ h) r
    → Holds spans r
    → Holds (set spans h (some s)) (r ++ (h, s) ∷ [])
Holds-set spans h s [] b f a = (get_elem?-set_self spans h (some s) b, tt)
Holds-set spans h s ((q, t) ∷ r) b f a =
    (rw (get_elem?-set_ne spans h q (some s) f.0) a.0, Holds-set spans h s r b f.1 a.1)
