-- ===== src/Trace.antt =====
-- internal/daemon/tracestore.go: the ring buffer of trace spans with its index.
pub mod Ring
pub mod Index
pub mod Window
use tailbus.Base.{
  ℕ, suc, ◌+◌, ◌%◌, String, Bool, true, false, ◌==◌, Option, none, some, List, [], ◌∷◌, ◌++◌, leb,
  eqb, length, replicate, get_elem?, set, if◌then◌else◌, Dict, lookup, insert, delete,
}

pub data TraceAction : Type 0 where
  message_created routed_local routed_remote sent_to_transport : TraceAction
  received_from_transport delivered_to_subscriber : TraceAction

-- The span's time and metadata are left out: no operation of the store reads them.
pub record TraceSpan : Type 0 where
  pub trace_id : String
  pub message_id : String
  pub node_id : String
  pub action : TraceAction

-- `none` is a nil pointer.
pub record TraceStore : Type 0 where
  pub spans : List (Option TraceSpan)
  pub index : Dict (List ℕ)
  pub capacity : ℕ
  pub head : ℕ
  pub count : ℕ

unfoldable pub new_trace_store : ℕ → TraceStore
new_trace_store capacity = record {
  spans = replicate capacity none;
  index = [];
  capacity = capacity;
  head = 0;
  count = 0;
}

abbrev pub positions_of : Option (List ℕ) → List ℕ
positions_of none = []
positions_of (some ps) = ps

-- The slice without the first position that equals `pos`.
abbrev pub without : ℕ → List ℕ → List ℕ
without pos [] = []
without pos (p ∷ ps) = if eqb p pos then ps else p ∷ without pos ps

-- m[id] = ps, then delete(m, id) if it is empty
abbrev pub put_positions : String → List ℕ → Dict (List ℕ) → Dict (List ℕ)
put_positions id [] index = delete id index
put_positions id (p ∷ ps) index = insert id (p ∷ ps) index

unfoldable pub remove_index_entry : String → ℕ → Dict (List ℕ) → Dict (List ℕ)
remove_index_entry id pos index =
    put_positions id (without pos (positions_of (lookup id index))) index

-- The entry of the span that is about to be overwritten goes first.
unfoldable pub clean_index : TraceStore → Dict (List ℕ)
unfolding remove_index_entry
clean_index ts =
    if leb ts.capacity ts.count
    then elim (get_elem? ts.spans ts.head) [
      | some (some old) ↦ remove_index_entry old.trace_id ts.head ts.index
      | _ ↦ ts.index
    ]
    else ts.index

unfoldable pub append_index : String → ℕ → Dict (List ℕ) → Dict (List ℕ)
append_index id pos index = insert id (positions_of (lookup id index) ++ pos ∷ []) index

unfoldable pub record_span : TraceSpan → TraceStore → TraceStore
record_span span ts = record {
  spans = set ts.spans ts.head (some span);
  index = append_index span.trace_id ts.head (clean_index ts);
  capacity = ts.capacity;
  head = (ts.head + 1) % ts.capacity;
  count = ts.count + 1;
}

-- The spans at the given positions that bear the trace ID.
unfoldable pub collect : String → List (Option TraceSpan) → List ℕ → List TraceSpan
collect id spans [] = []
collect id spans (pos ∷ ps) =
    let rest = collect id spans ps in
    elim (get_elem? spans pos) [
      | some (some s) ↦ if s.trace_id == id then s ∷ rest else rest
      | _ ↦ rest
    ]

unfoldable pub get_trace : String → TraceStore → List TraceSpan
get_trace id ts = collect id ts.spans (positions_of (lookup id ts.index))

-- Spans recorded one after another.
unfoldable pub record_all : List TraceSpan → TraceStore → TraceStore
record_all [] ts = ts
record_all (s ∷ ss) ts = record_all ss (record_span s ts)
