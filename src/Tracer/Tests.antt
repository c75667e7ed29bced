-- ===== src/Tracer/Tests.antt =====
-- The laws of the tracer at concrete inputs.
use orkai_observability.Context.{background, trace_id_value}
use orkai_observability.Prelude.{◌*◌, ◌+◌, [], length, refl, some, ◌∷◌, ◌≡◌}
use orkai_observability.Prelude.Int64.{Int64}
use orkai_observability.Text.{Text, codes}
use orkai_observability.Tracer.{Tracer, generate_random_hex, get_active_trace_id, start_trace}
use orkai_observability.Tracer.Nesting.{
  Spans, active_within_span, count, done, nested_spans_restore, run, spanning,
}

abbrev no_text : Int64 → Text
no_text d = []

abbrev idle : Tracer
idle = record {
  writer = [];
  service = codes "api";
  trace_stack = codes "aa" ∷ [];
  exporter = some [];
}

abbrev request : Spans
request =
    spanning (219 ∷ 59 ∷ []) 5 background (codes "/users")
      (spanning (27 ∷ 31 ∷ []) 6 background (codes "db") done 9 done) 12 done

generate_random_hex_runs : generate_random_hex (219 ∷ 59 ∷ []) ≡ codes "db3b"
unfolding generate_random_hex
generate_random_hex_runs = refl

nested_spans_restore_example :
    ((run no_text request idle).trace_stack ≡ codes "aa" ∷ [])
    × (length (run no_text request idle).writer ≡ 0 + 2 * count request)
nested_spans_restore_example = nested_spans_restore no_text request idle

request_is_active :
    let (r, t1) = start_trace (219 ∷ 59 ∷ []) 5 background (codes "/users") idle in
    (get_active_trace_id (run no_text request t1).trace_stack ≡ r.1.trace_id)
    × (trace_id_value r.0 ≡ some r.1.trace_id)
request_is_active =
    active_within_span no_text (219 ∷ 59 ∷ []) 5 background (codes "/users") request idle
