-- ===== src/Trace/Window/Tests.antt =====
-- Runs of the trace store (internal/daemon/tracestore.go).
use tailbus.Base.{◌≡◌, String, List, [], ◌∷◌, arith}
use tailbus.Trace.{TraceSpan, routed_local, new_trace_store, record_all, get_trace}
use tailbus.Trace.Window.{get_trace-record_all}

abbrev span : String → String → TraceSpan
span trace message = record {
  trace_id = trace;
  message_id = message;
  node_id = "n1";
  action = routed_local;
}

-- Three spans in a ring of two: the first one is gone.
abbrev three_spans : List TraceSpan
three_spans = span "t" "m1" ∷ span "u" "m2" ∷ span "t" "m3" ∷ []

get_trace-record_all_example :
    get_trace "t" (record_all three_spans (new_trace_store 2)) ≡ span "t" "m3" ∷ []
get_trace-record_all_example = get_trace-record_all 2 three_spans "t" (omega arith)
