-- ===== src/Requests.antt =====
-- observability/middleware.go, observability/panic_middleware.go and observability/transport.go: a request on
-- its way through the middlewares, and a request that a client sends. A handler is a function, which may
-- panic; what it gets of the response writer is the wrapper and the header map. Each step that reads
-- the clock has a number, and the clock gives its moment.
pub mod Restores
pub mod Serving
pub mod Received
pub mod Counting
mod Panics
pub mod Transport
mod Tests
use orkai_observability.Config.{Config}
use orkai_observability.Context.{Context, baggage_from_context, context_with_baggage, with_trace_id}
use orkai_observability.Exporter.{header}
use orkai_observability.Facade.{Facade, Instance, Moment}
use orkai_observability.Facade.Calls.{counter, end_span, latency, log_entry, start_span}
use orkai_observability.Facade.Sample.{clock}
use orkai_observability.Float64.{Float64}
use orkai_observability.Logger.Entries.{Method, logs_error_context, logs_info}
use orkai_observability.Metrics.Store.{milliseconds}
use orkai_observability.Middleware.{
  Body, PayloadConfig, ResponseWriterWrapper, capture_req_body_if_needed, finished_fields,
  get_payload_max_size, new_response_writer_wrapper, should_log_payload, write, write_header,
}
use orkai_observability.Prelude.{
  Option, List, ℕ, none, some, ◌∷◌, [], if◌then◌else◌, not, ltb, length, false, true, ◌++◌, ◌||◌,
}
use orkai_observability.Prelude.Int64.{Int64}
use orkai_observability.Propagation.{
  Header, extract_baggage, extract_trace_id, inject_baggage, inject_trace_id, set_header,
}
use orkai_observability.Text.{Text, text_eq, codes}
use orkai_observability.Tracer.{get_active_trace_id, push_active_trace_id}
use orkai_observability.Types.{new_string_field, Field, Span, since}

pub record Request : Type 0 where
  pub method : Text
  pub path : Text
  pub header : Header
  pub body : Body
  pub context : Context

-- The response writer that a handler gets.
pub record Writer : Type 0 where
  pub header : Header
  pub wrapper : ResponseWriterWrapper

-- What a handler leaves: `panic` is the text of the value that it panicked with, if it did.
pub record Answer (F : Type 0) : Type 0 where
  pub facade : Facade F
  pub writer : Writer
  pub panic : Option Text

abbrev pub Handler : Type 0 → Type 0
Handler F = Request → Writer → Facade F → Answer F

-- `RoundTrip` up to the call of the next transport: the request that it is called with.
unfoldable pub round_trip : List Text → Request → Request
unfolding get_active_trace_id baggage_from_context inject_trace_id inject_baggage
round_trip trace_stack req =
    let active_id = get_active_trace_id trace_stack in
    let baggage = baggage_from_context (some req.context) in
    if not (text_eq active_id []) || ltb 0 (length baggage)
    then record req { header = inject_baggage baggage (inject_trace_id active_id req.header) }
    else req

-- The fields of the first log entry of a request.
abbrev pub started_fields : Request → List Field
started_fields req =
    new_string_field (codes "method") req.method ∷ new_string_field (codes "path") req.path ∷ []

module _ {F : Type 0} ⦃f : Float64 F⦄ where
  -- The config of the instance, or the zero value.
  abbrev pub payload_of : Option (Instance F) → PayloadConfig F
  payload_of none = record {
    enable_payload_logging = false;
    max_payload_log_size_bytes = 0;
    payload_logging_sample = f.of_int 0;
  }
  payload_of (some inst) = inst.config.payload

  -- `runRecovery`, after a panic or without one.
  abbrev pub recover : Moment F → Request → Answer F → Option Text → Answer F
  recover m req a none = a
  recover m req a (some r) =
      let logged =
        log_entry m (logs_error_context req.context (codes "panic: " ++ r))
          (codes "panic in http handler") [] a.facade in
      record {
        facade = counter m (codes "http_panics_total") logged;
        writer = record {
          header = set_header (codes "Content-Type") (codes "application/json") a.writer.header;
          wrapper =
              write (codes "{\"error\":\"Internal Server Error\"}")
                (write_header 500 a.writer.wrapper);
        };
        panic = none;
      }

  unfoldable pub panic_recovery_middleware : Moment F → Handler F → Handler F
  unfolding log_entry counter set_header write write_header
  panic_recovery_middleware m next req w g = let a = next req w g in recover m req a a.panic

module _ {F : Type 0} ⦃f : Float64 F⦄ (clock : ℕ → Moment F) where
  unfoldable pub resume_trace : Context → Text → Text → Facade F → (Context × Span) × Facade F
  unfolding push_active_trace_id
  resume_trace ctx id path g =
      let span : Span = record { trace_id = id; name = path; start_time = (clock 0).ambient.now } in
      (
        (with_trace_id ctx id, span),
        record g { trace_stack = push_active_trace_id id g.trace_stack },
      )

  -- `HTTPMiddleware` up to the span: its context, its span, and what they leave.
  unfoldable pub incoming : Request → Facade F → (Context × Span) × Facade F
  unfolding extract_trace_id extract_baggage context_with_baggage resume_trace start_span
  incoming req g =
      let trace_id = extract_trace_id req.header in
      let ctx = context_with_baggage req.context (extract_baggage req.header) in
      if not (text_eq trace_id [])
      then resume_trace ctx trace_id req.path g
      else start_span (clock 0) ctx req.path g

  -- `random` is what `rand.Float64()` gives.
  unfoldable pub log_finished_request :
      F → Request → ResponseWriterWrapper → Int64 → PayloadConfig F → Text → Facade F → Facade F
  unfolding log_entry finished_fields should_log_payload
  log_finished_request random req rw' duration cfg req_body g =
      log_entry (clock 4) logs_info (codes "outgoing request finished")
        (finished_fields req.method req.path rw'.status_code (milliseconds duration)
          (should_log_payload random cfg rw'.status_code) req_body rw'.body)
        g

  -- After `Latency`: `none` is a panic in it.
  abbrev pub after_latency :
      F → Request → Answer F → Int64 → PayloadConfig F → Text → Option (Facade F) → Answer F
  after_latency random req a duration cfg req_body none = record a {
    panic = some (codes "index out of range");
  }
  after_latency random req a duration cfg req_body (some g) = record a {
    facade =
        log_finished_request random req a.writer.wrapper duration cfg req_body
          (counter (clock 3) (codes "http_requests_total") g);
  }

  -- After `next.ServeHTTP`, which ends the pipeline if it panics.
  abbrev pub after_handler :
      F → Request → Span → PayloadConfig F → Text → Answer F → Option Text → Answer F
  after_handler random req s cfg req_body a (some r) = a
  after_handler random req s cfg req_body a none =
      let duration = since (clock 2).ambient.now s.start_time in
      after_latency random req a duration cfg req_body
        (latency (clock 2) (codes "http_request_duration") duration a.facade)

  -- The answer has the wrapper; what the wrapped writer got is recorded in it.
  unfoldable pub execute_pipeline : F → Handler F → Span → Request → Facade F → Answer F
  unfolding get_payload_max_size capture_req_body_if_needed new_response_writer_wrapper log_entry
      since latency counter log_finished_request
  execute_pipeline random next s req g =
      let cfg = payload_of g.instance_of in
      let max_size = get_payload_max_size cfg in
      let (req_body, body) = capture_req_body_if_needed req.body cfg max_size in
      let req' = record req { body = body } in
      let w : Writer = record { header = []; wrapper = new_response_writer_wrapper max_size } in
      let g1 =
        log_entry (clock 1) logs_info (codes "incoming request started") (started_fields req) g in
      let a = next req' w g1 in after_handler random req' s cfg req_body a a.panic

  -- The deferred `EndSpan` runs after a panic too.
  unfoldable pub http_middleware : F → Handler F → Request → Facade F → Answer F
  unfolding incoming execute_pipeline end_span
  http_middleware random next req g =
      let (r, g1) = incoming req g in
      let a = execute_pipeline random next r.1 (record req { context = r.0 }) g1 in
      record a { facade = end_span (clock 5) r.1 a.facade }
