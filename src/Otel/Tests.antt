-- ===== src/Otel/Tests.antt =====
-- The laws of the bridge at concrete inputs.
use orkai_observability.Context.{background}
use orkai_observability.Metrics.Key.{format_metric_key}
use orkai_observability.Otel.{OtelMetrics, OtelTracer, end_trace, inc_counter, start_trace}
use orkai_observability.Otel.Metering.{inc_counter_twice}
use orkai_observability.Otel.Tracing.{end-start, resumed_span_stays}
use orkai_observability.Prelude.{◌+◌, Option, [], length, refl, some, ℕ, ◌∷◌, ◌≡◌, ◌≤◌}
use orkai_observability.Prelude.Int64.{add}
use orkai_observability.Table.{at, insert, lookup}
use orkai_observability.Text.{Text, codes, text_eq}
use orkai_observability.Tracer.{get_active_trace_id, push_active_trace_id}
use orkai_observability.Types.{Span}

abbrev no_error : Text → Option ℕ
no_error name = some (length name)

abbrev blank : OtelMetrics ℕ
blank = record {
  local = record {
    writer = [];
    service = [];
    counters = [];
    latency_totals = [];
    latency_counts = [];
    latency_reservoirs = [];
    gauges = [];
  };
  counters = [];
  histograms = [];
  gauges = [];
  sent = [];
}

counted_twice :
    at 0 (codes "hits") (inc_counter no_error 1000 (codes "hits") blank).local.counters ≡ 2
unfolding inc_counter insert lookup text_eq format_metric_key
counted_twice = refl

hit_counted_twice :
    (at 0 (codes "hits") (inc_counter no_error 1000 (codes "hits") blank).local.counters
      ≡ add (add (at 0 (codes "hits") blank.local.counters) 1) 1)
    × (length (inc_counter no_error 1000 (codes "hits") blank).sent ≤ 0 + 1)
hit_counted_twice = inc_counter_twice no_error 1000 (codes "hits") blank

abbrev idle : OtelTracer
idle = record { spans = []; ended = []; trace_stack = codes "aa" ∷ [] }

end-start_example :
    let (r, o1) = start_trace background (codes "bb") 4 9 (codes "/users") idle in
    let o2 = end_trace r.1 o1 in
    (o2.trace_stack ≡ codes "aa" ∷ [])
    × (o2.ended ≡ 4 ∷ [])
    × (at [] (codes "k") o2.spans ≡ at [] (codes "k") idle.spans)
end-start_example = end-start background (codes "bb") 4 9 (codes "/users") idle (codes "k")

abbrev resumed : Span
resumed = record { trace_id = codes "cc"; name = codes "/users"; start_time = 3 }

resumed_span_remains :
    let pushed = record idle { trace_stack = push_active_trace_id (codes "cc") idle.trace_stack } in
    (end_trace resumed pushed ≡ pushed)
    × (get_active_trace_id (end_trace resumed pushed).trace_stack ≡ codes "cc")
unfolding lookup
resumed_span_remains = resumed_span_stays resumed idle refl
