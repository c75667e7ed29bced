-- ===== src/Requests/Serving.antt =====
-- observability/middleware.go and observability/panic_middleware.go: requests whose handler may panic.
use orkai_observability.Context.{context_with_baggage}
use orkai_observability.Facade.{Facade, Moment}
use orkai_observability.Facade.Calls.{counter, log_entry}
use orkai_observability.Facade.Schedule.{after}
use orkai_observability.Facade.Schedule.Calls.{
  counter-Holds, end_span-Holds, latency-Holds, log_entry-Holds, start_span-Holds,
}
use orkai_observability.Facade.Soundness.{Holds}
use orkai_observability.Float64.{Float64}
use orkai_observability.Logger.Entries.{logs_error_context, logs_info}
use orkai_observability.Metrics.Store.{milliseconds}
use orkai_observability.Middleware.{
  PayloadConfig, capture_req_body_if_needed, finished_fields, get_payload_max_size,
  new_response_writer_wrapper, should_log_payload,
}
use orkai_observability.Prelude.{
  ◌++◌, Bool-cases, Option, [], inl, inr, none, refl, some, subst, sym, ℕ, ◌≡◌,
}
use orkai_observability.Propagation.{extract_baggage, extract_trace_id}
use orkai_observability.Requests.{
  Answer, Handler, Request, Writer, after_handler, after_latency, execute_pipeline, http_middleware,
  incoming, log_finished_request, panic_recovery_middleware, payload_of, recover, resume_trace,
  started_fields,
}
use orkai_observability.Text.{Text, codes, text_eq}
use orkai_observability.Types.{Span, since}

module _ {F : Type 0} ⦃f : Float64 F⦄ (m : Moment F) where
  recover-served :
      (req : Request) (a : Answer F) (panic : Option Text)
      → a.panic ≡ panic
      → Holds a.facade.instance_of
      → ((recover m req a panic).panic ≡ none) × Holds (recover m req a panic).facade.instance_of
  recover-served req a none e h = (e, h)
  recover-served req a (some r) e h =
      let method = logs_error_context req.context (codes "panic: " ++ r) in
      let g1 = log_entry m method (codes "panic in http handler") [] a.facade in
      (
        refl,
        counter-Holds m (codes "http_panics_total") g1
            (log_entry-Holds m method (codes "panic in http handler") [] a.facade h),
      )

module _ {F : Type 0} ⦃f : Float64 F⦄ (clock : ℕ → Moment F) (random : F) where
  incoming-Holds :
      (req : Request) (g : Facade F)
      → Holds g.instance_of
      → Holds (incoming clock req g).1.instance_of
  unfolding incoming resume_trace
  incoming-Holds req g h =
      let ctx = context_with_baggage req.context (extract_baggage req.header) in
      elim (Bool-cases (text_eq (extract_trace_id req.header) [])) [
        | inl e ↦ rw e (start_span-Holds (clock 0) ctx req.path g h)
        | inr e ↦ rw e h
      ]

  -- The part of the pipeline after a handler that returns.
  after_handler-served :
      (req : Request) (s : Span) (cfg : PayloadConfig F) (body : Text) (a : Answer F)
      (panic : Option Text)
      → panic ≡ none
      → a.panic ≡ none
      → Holds a.facade.instance_of
      → ((after_handler clock random req s cfg body a panic).panic ≡ none)
        × Holds (after_handler clock random req s cfg body a panic).facade.instance_of
  unfolding log_finished_request
  after_handler-served req s cfg body a (some r) e ea h = absurd (cc)
  after_handler-served req s cfg body a none e ea h =
      let d = since (clock 2).ambient.now s.start_time in
      let (g, el, hg) = latency-Holds (clock 2) (codes "http_request_duration") d a.facade h in
      let g1 = counter (clock 3) (codes "http_requests_total") g in
      subst
        (λ o.
          ((after_latency clock random req a d cfg body o).panic ≡ none)
          × Holds (after_latency clock random req a d cfg body o).facade.instance_of)
        (sym el)
        (
          ea,
          log_entry-Holds (clock 4) logs_info (codes "outgoing request finished")
              (finished_fields req.method req.path a.writer.wrapper.status_code (milliseconds d)
                (should_log_payload random cfg a.writer.wrapper.status_code) body
                a.writer.wrapper.body)
              g1 (counter-Holds (clock 3) (codes "http_requests_total") g hg),
        )

  -- With valid metrics, and a handler that leaves them valid, no panic of the handler leaves the two
  -- middlewares: the recovery within the tracing. The metrics are valid after the request.
  pub http_middleware_served :
      (m : Moment F) (next : Handler F) (req : Request) (g : Facade F)
      → ((req' : Request) (w : Writer) (g' : Facade F)
          → Holds g'.instance_of
          → Holds (next req' w g').facade.instance_of)
      → Holds g.instance_of
      → let a = http_middleware clock random (panic_recovery_middleware m next) req g in
        (a.panic ≡ none) × Holds a.facade.instance_of
  unfolding http_middleware execute_pipeline panic_recovery_middleware
  http_middleware_served m next req g keep h =
      let (r, g1) = incoming clock req g in
      let req1 = record req { context = r.0 } in
      let cfg = payload_of g1.instance_of in
      let max_size = get_payload_max_size cfg in
      let (req_body, body) = capture_req_body_if_needed req1.body cfg max_size in
      let req2 = record req1 { body = body } in
      let w : Writer = record { header = []; wrapper = new_response_writer_wrapper max_size } in
      let g2 =
        log_entry (clock 1) logs_info (codes "incoming request started") (started_fields req1) g1 in
      let h2 =
        log_entry-Holds (clock 1) logs_info (codes "incoming request started") (started_fields req1)
          g1 (incoming-Holds req g h) in
      let a = next req2 w g2 in
      let (calm, sound) = recover-served m req2 a a.panic refl (keep req2 w g2 h2) in
      let b = recover m req2 a a.panic in
      let (returns, after) = after_handler-served req2 r.1 cfg req_body b b.panic calm calm sound in
      (
        returns,
        end_span-Holds (clock 5) r.1
            (after_handler clock random req2 r.1 cfg req_body b b.panic).facade after,
      )
