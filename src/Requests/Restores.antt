-- ===== src/Requests/Restores.antt =====
-- observability/middleware.go: the stack of active trace IDs around a request.
use orkai_observability.Context.{context_with_baggage}
use orkai_observability.Facade.{Facade, Moment}
use orkai_observability.Facade.Calls.{counter, latency, log_entry}
use orkai_observability.Facade.Frame.{
  Framed, Framed-trans, is_local, counter-Framed, latency-Framed, log_entry-Framed,
  start_span-pushes, end_span-pops,
}
use orkai_observability.Float64.{Float64}
use orkai_observability.Logger.Entries.{logs_info}
use orkai_observability.Metrics.Store.{milliseconds}
use orkai_observability.Middleware.{
  PayloadConfig, ResponseWriterWrapper, capture_req_body_if_needed, get_payload_max_size,
  new_response_writer_wrapper, finished_fields, should_log_payload,
}
use orkai_observability.Prelude.{
  Bool-cases, Option, [], ap, inl, inr, none, refl, some, true, ℕ, ◌∙◌, ◌≡◌,
}
use orkai_observability.Prelude.Int64.{Int64}
use orkai_observability.Propagation.{extract_baggage, extract_trace_id}
use orkai_observability.Requests.{
  Answer, Handler, Request, Writer, after_handler, after_latency, execute_pipeline, http_middleware,
  incoming, log_finished_request, resume_trace, started_fields, payload_of,
}
use orkai_observability.Text.{Text, codes, text_eq}
use orkai_observability.Tracer.{pop_active_trace_id, push_active_trace_id}
use orkai_observability.Tracer.Nesting.{pop-push}
use orkai_observability.Types.{Span, since}

module _ {F : Type 0} ⦃f : Float64 F⦄ (clock : ℕ → Moment F) (random : F) where
  incoming-pushes :
      (req : Request) (g : Facade F)
      → is_local g.instance_of ≡ true
      → let (r, g') = incoming clock req g in
        (g'.trace_stack ≡ push_active_trace_id r.1.trace_id g.trace_stack)
        × (is_local g'.instance_of ≡ true)
  unfolding incoming resume_trace
  incoming-pushes req g h =
      let ctx = context_with_baggage req.context (extract_baggage req.header) in
      elim (Bool-cases (text_eq (extract_trace_id req.header) [])) [
        | inl e ↦ rw e (start_span-pushes (clock 0) ctx req.path g h)
        | inr e ↦ rw e (refl, h)
      ]

  log_finished-Framed :
      (req : Request) (rw' : ResponseWriterWrapper) (d : Int64) (cfg : PayloadConfig F)
      (body : Text) (g : Facade F)
      → Framed g (log_finished_request clock random req rw' d cfg body g)
  unfolding log_finished_request
  log_finished-Framed req rw' d cfg body g =
      log_entry-Framed (clock 4) logs_info (codes "outgoing request finished")
        (finished_fields req.method req.path rw'.status_code (milliseconds d)
          (should_log_payload random cfg rw'.status_code) body rw'.body)
        g

  after_latency-Framed :
      (req : Request) (a : Answer F) (d : Int64) (cfg : PayloadConfig F) (body : Text)
      (o : Option (Facade F))
      → latency (clock 2) (codes "http_request_duration") d a.facade ≡ o
      → Framed a.facade (after_latency clock random req a d cfg body o).facade
  after_latency-Framed req a d cfg body none e = (refl, refl)
  after_latency-Framed req a d cfg body (some g) e =
      let g1 = counter (clock 3) (codes "http_requests_total") g in
      let g2 = log_finished_request clock random req a.writer.wrapper d cfg body g1 in
      Framed-trans a.facade g g2
        (latency-Framed (clock 2) (codes "http_request_duration") d a.facade g e)
        (Framed-trans g g1 g2 (counter-Framed (clock 3) (codes "http_requests_total") g)
          (log_finished-Framed req a.writer.wrapper d cfg body g1))

  after_handler-Framed :
      (req : Request) (s : Span) (cfg : PayloadConfig F) (body : Text) (a : Answer F)
      (panic : Option Text)
      → Framed a.facade (after_handler clock random req s cfg body a panic).facade
  after_handler-Framed req s cfg body a (some r) = (refl, refl)
  after_handler-Framed req s cfg body a none =
      after_latency-Framed req a (since (clock 2).ambient.now s.start_time) cfg body _ refl

  execute_pipeline-Framed :
      (next : Handler F) (s : Span) (req : Request) (g : Facade F)
      → ((req' : Request) (w : Writer) (g' : Facade F) → Framed g' (next req' w g').facade)
      → Framed g (execute_pipeline clock random next s req g).facade
  unfolding execute_pipeline
  execute_pipeline-Framed next s req g keep =
      let cfg = payload_of g.instance_of in
      let max_size = get_payload_max_size cfg in
      let (req_body, body) = capture_req_body_if_needed req.body cfg max_size in
      let req' = record req { body = body } in
      let w : Writer = record { header = []; wrapper = new_response_writer_wrapper max_size } in
      let g1 =
        log_entry (clock 1) logs_info (codes "incoming request started") (started_fields req) g in
      let a = next req' w g1 in
      let b = after_handler clock random req' s cfg req_body a a.panic in
      Framed-trans g g1 b.facade
        (log_entry-Framed (clock 1) logs_info (codes "incoming request started")
          (started_fields req) g)
        (Framed-trans g1 a.facade b.facade (keep req' w g1)
          (after_handler-Framed req' s cfg req_body a a.panic))

  -- With the local tracer, and a handler that leaves the stack of active trace IDs and the kind of the
  -- tracer as they were, a request leaves the stack as it was, whether its trace is new or resumed and
  -- whether the handler panics or not.
  pub http_middleware_restores :
      (next : Handler F) (req : Request) (g : Facade F)
      → ((req' : Request) (w : Writer) (g' : Facade F) → Framed g' (next req' w g').facade)
      → is_local g.instance_of ≡ true
      → (http_middleware clock random next req g).facade.trace_stack ≡ g.trace_stack
  unfolding http_middleware
  http_middleware_restores next req g keep h =
      let (r, g1) = incoming clock req g in
      let (pushed, at_start) = incoming-pushes req g h in
      let a = execute_pipeline clock random next r.1 (record req { context = r.0 }) g1 in
      let (stack, kind) = execute_pipeline-Framed next r.1 (record req { context = r.0 }) g1 keep in
      (end_span-pops (clock 5) r.1 a.facade (kind ∙ at_start)).0
      ∙ ap pop_active_trace_id (stack ∙ pushed)
      ∙ (pop-push r.1.trace_id g.trace_stack).1
