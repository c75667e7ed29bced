-- ===== src/Requests/Transport.antt =====
-- observability/transport.go: the transport of an HTTP client. The next transport, and the default one of
-- package `net/http`, are functions of the request.
use orkai_observability.Prelude.{List, Option, none, some}
use orkai_observability.Requests.{Request, round_trip}
use orkai_observability.Text.{Text}

module _ (Response : Type 0) where
  pub record TracingRoundTripper : Type 0 where
    pub next : Request → Response

  -- `none` is nil.
  unfoldable pub new_tracing_round_tripper :
      (Request → Response) → Option (Request → Response) → TracingRoundTripper
  new_tracing_round_tripper default_transport none = record { next = default_transport }
  new_tracing_round_tripper default_transport (some next) = record { next = next }

  unfoldable pub send : TracingRoundTripper → List Text → Request → Response
  unfolding round_trip
  send rt trace_stack req = rt.next (round_trip trace_stack req)

  -- The transport of `NewTracingClient`.
  unfoldable pub new_tracing_client : (Request → Response) → TracingRoundTripper
  unfolding new_tracing_round_tripper
  new_tracing_client default_transport = new_tracing_round_tripper default_transport none
