-- ===== src/Requests/Tests.antt =====
-- The middlewares and the transport at concrete inputs.
use orkai_observability.Context.{
  baggage_from_context, baggage_value, trace_id_value, with_baggage, background,
}
use orkai_observability.Facade.{count_all, gauge_all}
use orkai_observability.Facade.Counting.{AddsIn, AddsIn-refl}
use orkai_observability.Facade.Sample.{clock, moment, started}
use orkai_observability.Facade.Soundness.{Holds}
use orkai_observability.Float64.{thousandths}
use orkai_observability.Logger.Delivery.{new_json_logger}
use orkai_observability.Metrics.Store.{new_in_memory_metrics}
use orkai_observability.Metrics.Store.Validity.{new-IsValid}
use orkai_observability.Middleware.{readable, write_header}
use orkai_observability.Prelude.{[], arith, none, refl, some, ℕ, ◌∷◌, ◌≡◌}
use orkai_observability.Requests.{
  Handler, Request, http_middleware, incoming, panic_recovery_middleware, round_trip,
  execute_pipeline,
}
use orkai_observability.Requests.Counting.{http_middleware_counts}
use orkai_observability.Requests.Panics.{panics_total, requests_total}
use orkai_observability.Requests.Received.{round_trip_received}
use orkai_observability.Requests.Restores.{http_middleware_restores}
use orkai_observability.Requests.Serving.{http_middleware_served}
use orkai_observability.Table.{lookup}
use orkai_observability.Text.{codes, is_space, text_eq}
use orkai_observability.Tracer.{get_active_trace_id, push_active_trace_id}

abbrev request : Request
request = record {
  method = codes "GET";
  path = codes "/users";
  header = (codes "X-Trace-Id", codes "aa") ∷ [];
  body = readable (codes "{}");
  context = background;
}

-- A handler that sets a status and panics.
abbrev failing : Handler ℕ
failing req w g = record {
  facade = g;
  writer = record w { wrapper = write_header 201 w.wrapper };
  panic = some (codes "boom");
}

answers_500 :
    let a = http_middleware clock 0 (panic_recovery_middleware moment failing) request started in
    a.writer.wrapper.headers_written ≡ 201 ∷ 500 ∷ []
unfolding http_middleware execute_pipeline panic_recovery_middleware text_eq write_header lookup
    count_all new_json_logger gauge_all new_in_memory_metrics
answers_500 = refl

http_middleware_restores_example :
    (http_middleware clock 0 failing request started).facade.trace_stack ≡ []
http_middleware_restores_example =
    http_middleware_restores clock 0 failing request started (λ req w g. (refl, refl)) refl

started-Holds : Holds started.instance_of
started-Holds = new-IsValid (codes "svc")

http_middleware_served_example :
    let a = http_middleware clock 0 (panic_recovery_middleware moment failing) request started in
    (a.panic ≡ none) × Holds a.facade.instance_of
http_middleware_served_example =
    http_middleware_served clock 0 moment failing request started (λ req w g h. h) started-Holds

abbrev with_user : Request
with_user = record request { context = with_baggage background ((codes "user", codes "al") ∷ []) }

has_user : baggage_from_context (some with_user.context) ≡ (codes "user", codes "al") ∷ []
unfolding baggage_from_context baggage_value
has_user = refl

round_trip_received_example :
    let arrived = record (round_trip (push_active_trace_id (codes "c0ffee") []) with_user) {
      context = background;
    } in
    let (r, g') = incoming clock arrived started in
    (r.1.trace_id ≡ codes "c0ffee")
    × (trace_id_value r.0 ≡ some (codes "c0ffee"))
    × (baggage_from_context (some r.0) ≡ (codes "user", codes "al") ∷ [])
    × (get_active_trace_id g'.trace_stack ≡ codes "c0ffee")
unfolding text_eq is_space
round_trip_received_example =
    round_trip_received (codes "c0ffee") (codes "user") (codes "al") [] refl (omega arith)
      (ground arith) (ground arith) clock [] with_user background started has_user

http_middleware_counts_example :
    let a = http_middleware clock 0 (panic_recovery_middleware moment failing) request started in
    AddsIn requests_total 1 started.instance_of a.facade.instance_of
    × AddsIn panics_total 1 started.instance_of a.facade.instance_of
http_middleware_counts_example =
    http_middleware_counts clock 0 moment failing (some (codes "boom")) request started
      (λ req w g. refl) (λ req w g h. h)
      (λ req w g.
        (AddsIn-refl requests_total g.instance_of, AddsIn-refl panics_total g.instance_of))
      started-Holds
