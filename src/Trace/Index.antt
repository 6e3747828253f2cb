-- ===== src/Trace/Index.antt =====
-- The index holds the positions of the occupied slots (internal/daemon/tracestore.go).
use tailbus.Base.{
  ℕ, String, ◌≡◌, refl, ◌==◌, eq_iff, Option, List, [], ◌∷◌, ◌++◌, arith, if◌then◌else◌, Dict,
  lookup, lookup-insert, lookup-delete,
}
use tailbus.Trace.{
  TraceSpan, positions_of, without, put_positions, remove_index_entry, append_index, collect,
}
use tailbus.Trace.Ring.{Slot, Holds}

-- The positions of the slots whose span bears the trace ID.
abbrev pub positions : String → List Slot → List ℕ
positions id [] = []
positions id ((p, s) ∷ r) = if s.trace_id == id then p ∷ positions id r else positions id r

-- The spans that bear the trace ID.
abbrev pub with_trace : String → List TraceSpan → List TraceSpan
with_trace id [] = []
with_trace id (s ∷ r) = if s.trace_id == id then s ∷ with_trace id r else with_trace id r

abbrev pub spans_of : List Slot → List TraceSpan
spans_of [] = []
spans_of ((p, s) ∷ r) = s ∷ spans_of r

-- No entry is empty, and each lists the positions in the order of recording.
abbrev pub Indexes : Dict (List ℕ) → List Slot → Type 0
Indexes index r = (id : String) → positions_of (lookup id index) ≡ positions id r

pub spans_of-append : (r t : List Slot) → spans_of (r ++ t) ≡ spans_of r ++ spans_of t
spans_of-append [] t = refl
spans_of-append ((p, s) ∷ r) t = ground (arith, spans_of-append r t)

positions-snoc :
    (id : String) (h : ℕ) (s : TraceSpan) (r : List Slot)
    → positions id (r ++ (h, s) ∷ [])
      ≡ (if s.trace_id == id then positions id r ++ h ∷ [] else positions id r)
positions-snoc id h s [] = ground arith
positions-snoc id h s ((p, t) ∷ r) = ground (arith, positions-snoc id h s r)

pub append_index-Indexes :
    (index : Dict (List ℕ)) (h : ℕ) (s : TraceSpan) (r : List Slot)
    → Indexes index r
    → Indexes (append_index s.trace_id h index) (r ++ (h, s) ∷ [])
unfolding append_index
append_index-Indexes index h s r e id =
    rw
      (
        positions-snoc id h s r,
        lookup-insert s.trace_id id (positions_of (lookup s.trace_id index) ++ h ∷ []) index,
      )
      (ground (arith, e id, e s.trace_id, eq_iff s.trace_id id))

positions_of-put :
    (k id : String) (ps : List ℕ) (index : Dict (List ℕ))
    → positions_of (lookup id (put_positions k ps index))
      ≡ (if k == id then ps else positions_of (lookup id index))
positions_of-put k id [] index = rw (lookup-delete k id index) (ground arith)
positions_of-put k id (p ∷ ps) index = rw (lookup-insert k id (p ∷ ps) index) (ground arith)

pub remove-Indexes :
    (index : Dict (List ℕ)) (p : ℕ) (s : TraceSpan) (r : List Slot)
    → Indexes index ((p, s) ∷ r)
    → Indexes (remove_index_entry s.trace_id p index) r
unfolding remove_index_entry
remove-Indexes index p s r e id =
    rw (positions_of-put s.trace_id id (without p (positions_of (lookup s.trace_id index))) index)
      (ground (arith, e id, e s.trace_id, eq_iff s.trace_id id, eq_iff s.trace_id s.trace_id))

-- Read back through the index, the slots give their spans.
pub collect-positions :
    (id : String) (spans : List (Option TraceSpan)) (r : List Slot)
    → Holds spans r
    → collect id spans (positions id r) ≡ with_trace id (spans_of r)
unfolding collect
collect-positions id spans [] h = refl
collect-positions id spans ((p, s) ∷ r) h = ground (arith, h.0, collect-positions id spans r h.1)
