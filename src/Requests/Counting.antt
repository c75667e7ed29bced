-- ===== src/Requests/Counting.antt =====
-- observability/middleware.go and observability/panic_middleware.go: the counters of a request.
use orkai_observability.Context.{context_with_baggage}
use orkai_observability.Facade.{Facade, Moment}
use orkai_observability.Facade.Calls.{counter, end_span, latency, log_entry}
use orkai_observability.Facade.Counting.{AddsIn, AddsIn-refl, AddsIn-trans, AddsIn-as}
use orkai_observability.Facade.Counting.Parts.{IsOwn}
use orkai_observability.Facade.Counting.Singles.{
  counter-AddsIn, end_span-AddsIn, latency-AddsIn, log_entry-AddsIn, start_span-AddsIn,
}
use orkai_observability.Facade.Soundness.{Holds}
use orkai_observability.Float64.{Float64}
use orkai_observability.Logger.Entries.{logs_info}
use orkai_observability.Metrics.Store.{milliseconds}
use orkai_observability.Middleware.{
  PayloadConfig, capture_req_body_if_needed, finished_fields, get_payload_max_size,
  new_response_writer_wrapper, should_log_payload,
}
use orkai_observability.Prelude.{
  ◌≡◌, Bool-cases, Option, [], ap, if◌then◌else◌, inl, inr, is_some, none, refl, some, ℕ, ◌+◌,
  arith, sym, ◌∙◌,
}
use orkai_observability.Prelude.Int64.{Int64}
use orkai_observability.Propagation.{extract_baggage, extract_trace_id}
use orkai_observability.Requests.{
  Answer, Request, after_handler, after_latency, incoming, log_finished_request, resume_trace,
  Handler, Writer, execute_pipeline, http_middleware, payload_of, started_fields,
  panic_recovery_middleware,
}
use orkai_observability.Requests.Serving.{http_middleware_served}
use orkai_observability.Text.{Text, codes, text_eq}
use orkai_observability.Types.{Span, since}
use orkai_observability.Requests.Panics.{
  by_panic, by_panic-panics, by_panic-requests, panics_IsOwn, panics_total, recovery-AddsIn,
  requests_IsOwn, requests_total,
}

module _ {F : Type 0} ⦃f : Float64 F⦄ (k : Text) (own : IsOwn k) (clock : ℕ → Moment F)
    (random : F) where
  incoming-AddsIn :
      (req : Request) (g : Facade F) → AddsIn k 0 g.instance_of (incoming clock req g).1.instance_of
  unfolding incoming resume_trace
  incoming-AddsIn req g =
      let ctx = context_with_baggage req.context (extract_baggage req.header) in
      elim (Bool-cases (text_eq (extract_trace_id req.header) [])) [
        | inl e ↦ rw e (start_span-AddsIn k own (clock 0) ctx req.path g)
        | inr e ↦ rw e (AddsIn-refl k g.instance_of)
      ]

  -- What a request that is handled adds, by how the pipeline ends.
  abbrev pub by_end : Option Text → ℕ
  by_end panic = if is_some panic then 0 else (if text_eq requests_total k then 1 else 0)

  after_latency-AddsIn :
      (req : Request) (a : Answer F) (d : Int64) (cfg : PayloadConfig F) (body : Text)
      (o : Option (Facade F))
      → a.panic ≡ none
      → latency (clock 2) (codes "http_request_duration") d a.facade ≡ o
      → let b = after_latency clock random req a d cfg body o in
        AddsIn k (by_end b.panic) a.facade.instance_of b.facade.instance_of
  unfolding log_finished_request
  after_latency-AddsIn req a d cfg body none calm e = AddsIn-refl k a.facade.instance_of
  after_latency-AddsIn req a d cfg body (some g) calm e =
      let g1 = counter (clock 3) requests_total g in
      let g2 = log_finished_request clock random req a.writer.wrapper d cfg body g1 in
      let n : ℕ = if text_eq requests_total k then 1 else 0 in
      let i = a.facade.instance_of in
      AddsIn-as k (0 + n + 0) (by_end a.panic) i g2.instance_of (omega arith ∙ ap by_end (sym calm))
        (AddsIn-trans k (0 + n) 0 i g1.instance_of g2.instance_of
          (AddsIn-trans k 0 n i g.instance_of g1.instance_of
            (latency-AddsIn k own (clock 2) (codes "http_request_duration") d a.facade g e)
            (counter-AddsIn k own (clock 3) requests_total g))
          (log_entry-AddsIn k own (clock 4) logs_info (codes "outgoing request finished")
            (finished_fields req.method req.path a.writer.wrapper.status_code (milliseconds d)
              (should_log_payload random cfg a.writer.wrapper.status_code) body
              a.writer.wrapper.body)
            g1))

  after_handler-AddsIn :
      (req : Request) (s : Span) (cfg : PayloadConfig F) (body : Text) (a : Answer F)
      (panic : Option Text)
      → a.panic ≡ panic
      → let b = after_handler clock random req s cfg body a panic in
        AddsIn k (by_end b.panic) a.facade.instance_of b.facade.instance_of
  after_handler-AddsIn req s cfg body a (some r) e =
      AddsIn-as k 0 (by_end a.panic) a.facade.instance_of a.facade.instance_of (ap by_end (sym e))
        (AddsIn-refl k a.facade.instance_of)
  after_handler-AddsIn req s cfg body a none e =
      after_latency-AddsIn req a (since (clock 2).ambient.now s.start_time) cfg body _ e refl

  -- The number of requests that are counted is the number of pipelines that do not panic, if the
  -- handler leaves the counter alone; and no other part of the pipeline changes a counter.
  http_middleware-AddsIn :
      (next : Handler F) (n : ℕ) (req : Request) (g : Facade F)
      → ((req' : Request) (w : Writer) (g' : Facade F)
          → AddsIn k n g'.instance_of (next req' w g').facade.instance_of)
      → let a = http_middleware clock random next req g in
        AddsIn k (n + by_end a.panic) g.instance_of a.facade.instance_of
  unfolding http_middleware execute_pipeline
  http_middleware-AddsIn next n req g keep =
      let (r, g1) = incoming clock req g in
      let req1 = record req { context = r.0 } in
      let cfg = payload_of g1.instance_of in
      let max_size = get_payload_max_size cfg in
      let (req_body, body) = capture_req_body_if_needed req1.body cfg max_size in
      let req2 = record req1 { body = body } in
      let w : Writer = record { header = []; wrapper = new_response_writer_wrapper max_size } in
      let g2 =
        log_entry (clock 1) logs_info (codes "incoming request started") (started_fields req1) g1 in
      let a = next req2 w g2 in
      let b = after_handler clock random req2 r.1 cfg req_body a a.panic in
      let g3 = end_span (clock 5) r.1 b.facade in
      let i = g.instance_of in
      let x1 : AddsIn k 0 i g1.instance_of = incoming-AddsIn req g in
      let x2 : AddsIn k 0 g1.instance_of g2.instance_of =
        log_entry-AddsIn k own (clock 1) logs_info (codes "incoming request started")
          (started_fields req1) g1 in
      let x3 : AddsIn k n g2.instance_of a.facade.instance_of = keep req2 w g2 in
      let x4 : AddsIn k (by_end b.panic) a.facade.instance_of b.facade.instance_of =
        after_handler-AddsIn req2 r.1 cfg req_body a a.panic refl in
      let x5 : AddsIn k 0 b.facade.instance_of g3.instance_of =
        end_span-AddsIn k own (clock 5) r.1 b.facade in
      let p : ℕ = by_end b.panic in
      AddsIn-as k (0 + 0 + n + (p + 0)) (n + p) i g3.instance_of (omega arith) (
        AddsIn-trans k (0 + 0 + n) (p + 0) i a.facade.instance_of g3.instance_of
          (AddsIn-trans k (0 + 0) n i g2.instance_of a.facade.instance_of
            (AddsIn-trans k 0 0 i g1.instance_of g2.instance_of x1 x2) x3)
          (AddsIn-trans k p 0 a.facade.instance_of b.facade.instance_of g3.instance_of x4 x5))

module _ {F : Type 0} ⦃f : Float64 F⦄ (clock : ℕ → Moment F) (random : F) where
  -- A request through the tracing middleware with the recovery within it counts one request, and one
  -- panic just if the handler panicked, with valid in-memory metrics and a handler that always ends
  -- in the same way, with the same panic or with none, and that leaves them valid and these two
  -- counters alone.
  pub http_middleware_counts :
      (m : Moment F) (next : Handler F) (panic : Option Text) (req : Request) (g : Facade F)
      → ((req' : Request) (w : Writer) (g' : Facade F) → (next req' w g').panic ≡ panic)
      → ((req' : Request) (w : Writer) (g' : Facade F)
          → Holds g'.instance_of
          → Holds (next req' w g').facade.instance_of)
      → ((req' : Request) (w : Writer) (g' : Facade F)
          → AddsIn requests_total 0 g'.instance_of (next req' w g').facade.instance_of
            × AddsIn panics_total 0 g'.instance_of (next req' w g').facade.instance_of)
      → Holds g.instance_of
      → let a = http_middleware clock random (panic_recovery_middleware m next) req g in
        AddsIn requests_total 1 g.instance_of a.facade.instance_of
        × AddsIn panics_total (if is_some panic then 1 else 0) g.instance_of a.facade.instance_of
  unfolding text_eq
  http_middleware_counts m next panic req g ends keep alone h =
      let a = http_middleware clock random (panic_recovery_middleware m next) req g in
      let calm : a.panic ≡ none = (http_middleware_served clock random m next req g keep h).0 in
      let i = g.instance_of in
      let i' = a.facade.instance_of in
      let served : Handler F = panic_recovery_middleware m next in
      let one : by_end requests_total requests_IsOwn clock random a.panic ≡ 1 =
        ap (by_end requests_total requests_IsOwn clock random) calm in
      let zero : by_end panics_total panics_IsOwn clock random a.panic ≡ 0 =
        ap (by_end panics_total panics_IsOwn clock random) calm in
      (
        AddsIn-as requests_total _ 1 i i' (omega (arith, by_panic-requests panic, one)) (
            http_middleware-AddsIn requests_total requests_IsOwn clock random served
              (by_panic requests_total panic) req g
              (λ req' w g'.
                recovery-AddsIn requests_total requests_IsOwn m next panic req' w g'
                  (ends req' w g') (alone req' w g').0)),
        AddsIn-as panics_total _ (if is_some panic then 1 else 0) i i'
            (omega (arith, by_panic-panics panic, zero))
            (http_middleware-AddsIn panics_total panics_IsOwn clock random served
              (by_panic panics_total panic) req g
              (λ req' w g'.
                recovery-AddsIn panics_total panics_IsOwn m next panic req' w g' (ends req' w g')
                  (alone req' w g').1)),
      )
