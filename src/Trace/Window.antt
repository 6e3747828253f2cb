-- ===== src/Trace/Window.antt =====
-- What the trace store promises: the last `capacity` spans of a trace, in the order of recording
-- (internal/daemon/tracestore.go).
mod Tests
use tailbus.Base.{
  ℕ, zero, suc, ◌+◌, ◌-◌, ◌%◌, ◌≤◌, ◌<◌, ◌≡◌, refl, ap, ◌∙◌, sym, String, Option, none, some, List,
  [], ◌∷◌, ◌++◌, arith, All, leb, ltb, length, length-append, length-drop, drop, replicate,
  get_elem?, inl, inr, Bool-cases, true, ◌≢◌, false, lookup, subst, ltb→lt,
}
use mathlib.Core.List.{append-nil, append_assoc}
use tailbus.Trace.{
  TraceSpan, TraceStore, new_trace_store, clean_index, append_index, remove_index_entry,
  record_span, record_all, get_trace, collect,
}
use tailbus.Trace.Ring.{
  Slot, after, mod-after, Chain, Chain-snoc, Chain-free, Chain-full, Holds, Holds-set, length-set,
}
use tailbus.Trace.Index.{
  Indexes, positions, spans_of, spans_of-append, with_trace, append_index-Indexes, remove-Indexes,
  collect-positions,
}

-- The last `n` items.
abbrev pub last {ℓ} : {A : Type ℓ} → ℕ → List A → List A
last n xs = drop (length xs - n) xs

-- The occupied slots, which run on from `start` up to the head.
pub record Occupied (ts : TraceStore) (start : ℕ) (r : List Slot) : Type 0 where
  pub start_lt : start < ts.capacity
  pub head_lt : ts.head < ts.capacity
  pub size : length ts.spans ≡ ts.capacity
  pub chain : Chain ts.capacity start r ts.head
  pub bounded : length r ≤ ts.capacity
  pub counted : length r ≤ ts.count
  pub filled : length r < ts.capacity → length r ≡ ts.count
  pub holds : Holds ts.spans r
  pub indexes : Indexes ts.index r

-- The store stands for `past`: its slots hold the last `capacity` spans of it.
abbrev pub StandsFor : TraceStore → List TraceSpan → Type 0
StandsFor ts past =
    (start : ℕ) × (r : List Slot) × Occupied ts start r × (spans_of r ≡ last ts.capacity past)

length-spans_of : (r : List Slot) → length (spans_of r) ≡ length r
length-spans_of [] = refl
length-spans_of ((p, s) ∷ r) = ap suc (length-spans_of r)

drop-append {ℓ} :
    {A : Type ℓ} (n : ℕ) (xs ys : List A) → n ≤ length xs → drop n (xs ++ ys) ≡ drop n xs ++ ys
drop-append zero xs ys h = refl
drop-append (suc n) [] ys h = elim h [ ]
drop-append (suc n) (x ∷ xs) ys h = drop-append n xs ys (omega arith)

drop-suc {ℓ} : {A : Type ℓ} (n : ℕ) (xs : List A) → drop (suc n) xs ≡ drop 1 (drop n xs)
drop-suc zero [] = refl
drop-suc zero (x ∷ xs) = refl
drop-suc (suc n) [] = refl
drop-suc (suc n) (x ∷ xs) = drop-suc n xs

-- One more item on a list that is not yet that long.
last-snoc_short {ℓ} :
    {A : Type ℓ} (n : ℕ) (xs : List A) (x : A)
    → length xs < n
    → last n (xs ++ x ∷ []) ≡ last n xs ++ x ∷ []
last-snoc_short n xs x h =
    let e : length (xs ++ x ∷ []) - n ≡ 0 = omega (arith, length-append xs (x ∷ [])) in
    let f : length xs - n ≡ 0 = omega arith in rw (e, f)

-- One more item pushes the oldest one out.
last-snoc_full {ℓ} :
    {A : Type ℓ} (n : ℕ) (xs : List A) (x : A)
    → 0 < n
    → n ≤ length xs
    → last n (xs ++ x ∷ []) ≡ drop 1 (last n xs) ++ x ∷ []
last-snoc_full n xs x p h =
    let e : length (xs ++ x ∷ []) - n ≡ suc (length xs - n) =
      omega (arith, length-append xs (x ∷ [])) in
    rw e (
      drop-append (suc (length xs - n)) xs (x ∷ []) (omega arith)
      ∙ ap (λ ys. ys ++ x ∷ []) (drop-suc (length xs - n) xs))

new-Occupied : (capacity : ℕ) → 0 < capacity → Occupied (new_trace_store capacity) 0 []
unfolding new_trace_store lookup
new-Occupied capacity h = record {
  start_lt = h;
  head_lt = h;
  size = length-replicate capacity;
  chain = refl;
  bounded = omega arith;
  counted = omega arith;
  filled = λ _. refl;
  holds = tt;
  indexes = λ id. refl;
}
  where
    nil_span : Option TraceSpan
    nil_span = none

    length-replicate : (n : ℕ) → length (replicate n nil_span) ≡ n
    length-replicate zero = refl
    length-replicate (suc n) = ap suc (length-replicate n)

-- A write while the ring has room.
record-Occupied_room :
    (ts : TraceStore) (start : ℕ) (r : List Slot) (s : TraceSpan)
    → Occupied ts start r
    → length r < ts.capacity
    → Occupied (record_span s ts) start (r ++ (ts.head, s) ∷ [])
unfolding record_span clean_index
record-Occupied_room ts start r s o room = record {
  start_lt = o.start_lt;
  head_lt = rw next (ground (arith, o.head_lt));
  size = length-set ts.spans ts.head (some s) ∙ o.size;
  chain = rw next (Chain-snoc ts.capacity start ts.head r s o.chain);
  bounded = omega (arith, length-append r ((ts.head, s) ∷ []));
  counted = omega (arith, o.counted, length-append r ((ts.head, s) ∷ []));
  filled = λ h. omega (arith, o.filled room, length-append r ((ts.head, s) ∷ []));
  holds = Holds-set ts.spans ts.head s r (omega (arith, o.size, o.head_lt)) free o.holds;
  indexes = rw index (append_index-Indexes ts.index ts.head s r o.indexes);
}
  where
    next : (ts.head + 1) % ts.capacity ≡ after ts.capacity ts.head
    next = mod-after ts.capacity ts.head o.head_lt

    free : All (λ (t : Slot). t.0 ≢ ts.head) r
    free = Chain-free ts.capacity start ts.head r o.start_lt o.head_lt o.chain room

    index : leb ts.capacity ts.count ≡ false
    index = ground (arith, o.filled room)

-- A write over the oldest slot of a full ring.
record-Occupied_full :
    (ts : TraceStore) (start p : ℕ) (old s : TraceSpan) (r : List Slot)
    → Occupied ts start ((p, old) ∷ r)
    → length ((p, old) ∷ r) ≡ ts.capacity
    → Occupied (record_span s ts) (after ts.capacity start) (r ++ (ts.head, s) ∷ [])
unfolding record_span clean_index
record-Occupied_full ts start p old s r o full = record {
  start_lt = ground (arith, o.start_lt);
  head_lt = rw next (ground (arith, o.head_lt));
  size = length-set ts.spans ts.head (some s) ∙ o.size;
  chain = rw next (Chain-snoc ts.capacity (after ts.capacity start) ts.head r s o.chain.1);
  bounded = omega (arith, length-append r ((ts.head, s) ∷ []));
  counted = omega (arith, o.counted, length-append r ((ts.head, s) ∷ []));
  filled = λ h. absurd (omega (arith, length-append r ((ts.head, s) ∷ [])));
  holds = Holds-set ts.spans ts.head s r (omega (arith, o.size, o.head_lt)) free o.holds.1;
  indexes =
      rw (over, slot)
        (append_index-Indexes (remove_index_entry old.trace_id ts.head ts.index) ts.head s r
          (rw at_head (remove-Indexes ts.index p old r o.indexes)));
}
  where
    next : (ts.head + 1) % ts.capacity ≡ after ts.capacity ts.head
    next = mod-after ts.capacity ts.head o.head_lt

    free : All (λ (t : Slot). t.0 ≢ ts.head) r
    free =
        Chain-free ts.capacity (after ts.capacity start) ts.head r (ground (arith, o.start_lt))
          o.head_lt o.chain.1 (omega arith)

    at_head : ts.head ≡ p
    at_head =
        sym (Chain-full ts.capacity start ts.head ((p, old) ∷ r) o.start_lt o.head_lt o.chain full)
        ∙ sym o.chain.0

    over : leb ts.capacity ts.count ≡ true
    over = ground (arith, o.counted)

    slot : get_elem? ts.spans ts.head ≡ some (some old)
    slot = rw at_head o.holds.0

length-last :
    (ts : TraceStore) (past : List TraceSpan) (r : List Slot)
    → spans_of r ≡ last ts.capacity past
    → length r ≡ length past - (length past - ts.capacity)
length-last ts past r e =
    sym (length-spans_of r) ∙ ap length e ∙ length-drop (length past - ts.capacity) past

record-StandsFor_full :
    (ts : TraceStore) (past : List TraceSpan) (s : TraceSpan) (start : ℕ) (r : List Slot)
    → Occupied ts start r
    → spans_of r ≡ last ts.capacity past
    → length r ≡ ts.capacity
    → StandsFor (record_span s ts) (past ++ s ∷ [])
record-StandsFor_full ts past s start [] o e full = absurd (omega (arith, o.start_lt))
record-StandsFor_full ts past s start ((p, old) ∷ r) o e full =
    let n = length-last ts past ((p, old) ∷ r) e in
    (
      after ts.capacity start,
      r ++ (ts.head, s) ∷ [],
      record-Occupied_full ts start p old s r o full,
      unfold record_span in
          spans_of-append r ((ts.head, s) ∷ [])
          ∙ ap (λ (ys : List TraceSpan). drop 1 ys ++ s ∷ []) e
          ∙ sym (last-snoc_full ts.capacity past s (omega (arith, o.start_lt)) (omega (arith, n))),
    )

record-StandsFor :
    (ts : TraceStore) (past : List TraceSpan) (s : TraceSpan)
    → StandsFor ts past
    → StandsFor (record_span s ts) (past ++ s ∷ [])
record-StandsFor ts past s (start, r, o, e) = elim (Bool-cases (ltb (length r) ts.capacity)) [
  | inl room ↦
      let lt = ltb→lt (length r) ts.capacity room in
      let n = length-last ts past r e in
      (
        start,
        r ++ (ts.head, s) ∷ [],
        record-Occupied_room ts start r s o lt,
        unfold record_span in
            spans_of-append r ((ts.head, s) ∷ [])
            ∙ ap (λ (ys : List TraceSpan). ys ++ s ∷ []) e
            ∙ sym (last-snoc_short ts.capacity past s (omega (arith, n))),
      )
  | inr full ↦ record-StandsFor_full ts past s start r o e (ground (arith, o.bounded))
]

record_all-StandsFor :
    (spans past : List TraceSpan) (ts : TraceStore)
    → StandsFor ts past
    → StandsFor (record_all spans ts) (past ++ spans)
unfolding record_all
record_all-StandsFor [] past ts h = rw (append-nil past) h
record_all-StandsFor (s ∷ ss) past ts h =
    subst (StandsFor (record_all ss (record_span s ts))) (append_assoc past (s ∷ []) ss)
      (record_all-StandsFor ss (past ++ s ∷ []) (record_span s ts) (record-StandsFor ts past s h))

get_trace-StandsFor :
    (ts : TraceStore) (past : List TraceSpan) (id : String)
    → StandsFor ts past
    → get_trace id ts ≡ with_trace id (last ts.capacity past)
unfolding get_trace
get_trace-StandsFor ts past id (start, r, o, e) =
    ap (collect id ts.spans) (o.indexes id)
    ∙ collect-positions id ts.spans r o.holds
    ∙ ap (with_trace id) e

capacity-record_all :
    (spans : List TraceSpan) (ts : TraceStore) → (record_all spans ts).capacity ≡ ts.capacity
unfolding record_all record_span
capacity-record_all [] ts = refl
capacity-record_all (s ∷ ss) ts = capacity-record_all ss (record_span s ts)

-- After any spans have been recorded in a new store of positive capacity, a trace gives its spans
-- among the last `capacity` ones, in the order of recording.
pub get_trace-record_all :
    (capacity : ℕ) (spans : List TraceSpan) (id : String)
    → 0 < capacity
    → get_trace id (record_all spans (new_trace_store capacity))
      ≡ with_trace id (last capacity spans)
unfolding new_trace_store
get_trace-record_all capacity spans id h =
    get_trace-StandsFor (record_all spans (new_trace_store capacity)) spans id (
      record_all-StandsFor spans [] (new_trace_store capacity)
        (0, [], new-Occupied capacity h, sym (drop-nil (0 - capacity))))
    ∙ ap (λ c. with_trace id (last c spans)) (capacity-record_all spans (new_trace_store capacity))
  where
    no_spans : List TraceSpan
    no_spans = []

    drop-nil : (n : ℕ) → drop n no_spans ≡ []
    drop-nil zero = refl
    drop-nil (suc n) = refl
