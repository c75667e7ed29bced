-- ===== src/Otlp.antt =====
-- observability/otlp_exporter.go: the exporter of spans and logs, with its two channels and the
-- goroutine that collects batches and posts them. `json.Marshal` does not fail on the payloads, which
-- are made of strings, numbers and lists. What the HTTP client answers to the n-th request is an
-- argument: `none` stands for an error.
pub mod Batches
pub mod Decoding
pub mod Order
pub mod Payloads
mod Tests
use orkai_observability.Otlp.Payloads.{
  ExportedSpan, Payload, Unmarshal, build_logs_payload, build_traces_payload, logs_payload,
  traces_payload,
}
use orkai_observability.Prelude.{
  ◌&&◌, ◌+◌, ◌++◌, Bool, List, Option, [], if◌then◌else◌, false, length, ltb, none, some, true, ℕ,
  ◌∷◌,
}
use orkai_observability.Prelude.Int64.{Int64, sle, slt}
use orkai_observability.Text.{Text, codes, text_eq}
use orkai_observability.Types.{Span}

pub record OtlpExporter : Type 0 where
  pub endpoint : Text
  pub service_name : Text
  pub interval : Int64
  pub spans_chan : List ExportedSpan
  pub logs_chan : List Text
  -- the variables of `worker`, and whether it runs
  pub spans : List ExportedSpan
  pub logs : List Text
  pub worker_alive : Bool
  -- the calls of `post`, and of the facade's `Counter`
  pub posts : List (Text × Payload)
  pub counted : List Text

abbrev pub channel_capacity : ℕ
channel_capacity = 4096

abbrev pub dropped : Text
dropped = codes "observability_dropped_logs_total"

unfoldable pub new_otlp_exporter : Text → Text → Int64 → Option OtlpExporter
new_otlp_exporter endpoint service_name interval =
    if text_eq endpoint []
    then none
    else some (record {
      endpoint = endpoint;
      service_name = service_name;
      interval = if sle interval 0 then 5000000000 else interval;
      spans_chan = [];
      logs_chan = [];
      spans = [];
      logs = [];
      worker_alive = true;
      posts = [];
      counted = [];
    })

unfoldable pub export_span : Span → Int64 → OtlpExporter → OtlpExporter
export_span span duration e =
    if ltb (length e.spans_chan) channel_capacity
    then record e { spans_chan = e.spans_chan ++ record { span = span; duration = duration } ∷ [] }
    else record e { counted = e.counted ++ dropped ∷ [] }

unfoldable pub export_log : Text → OtlpExporter → OtlpExporter
export_log log_str e =
    if ltb (length e.logs_chan) channel_capacity
    then record e { logs_chan = e.logs_chan ++ log_str ∷ [] }
    else record e { counted = e.counted ++ dropped ∷ [] }

-- The status codes that `post` accepts.
abbrev pub is_success : Option Int64 → Bool
is_success none = false
is_success (some status) = sle 200 status && slt status 300

-- What surrounds the exporter: random bytes and clock by the number of a post and of an item in it,
-- the JSON decoder, and the answer to the n-th post.
pub record Surroundings : Type 0 where
  pub random : ℕ → ℕ → List ℕ
  pub now : ℕ → ℕ → ℕ
  pub unmarshal : Unmarshal
  pub respond : ℕ → Option Int64

-- The cases of the `select` of `worker`.
pub data Case : Type 0 where
  on_span on_log on_tick on_stop : Case

module _ (c : Surroundings) where
  unfoldable pub post : Text → Payload → OtlpExporter → OtlpExporter
  post url payload e =
      let e' = record e { posts = e.posts ++ (url, payload) ∷ [] } in
      if is_success (c.respond (length e.posts))
      then e'
      else record e' { counted = e.counted ++ codes "observability_internal_errors_total" ∷ [] }

  unfoldable pub send_traces : List ExportedSpan → OtlpExporter → OtlpExporter
  unfolding post build_traces_payload
  send_traces spans e =
      post (e.endpoint ++ codes "/v1/traces")
        (traces_payload (build_traces_payload e.service_name (c.random (length e.posts)) spans)) e

  unfoldable pub send_logs : List Text → OtlpExporter → OtlpExporter
  unfolding post build_logs_payload
  send_logs logs e =
      post (e.endpoint ++ codes "/v1/logs")
        (logs_payload (build_logs_payload e.service_name c.unmarshal (c.now (length e.posts)) logs))
        e

  unfoldable pub flush : List ExportedSpan → List Text → OtlpExporter → OtlpExporter
  unfolding send_traces send_logs
  flush spans logs e =
      let e1 = if ltb 0 (length spans) then send_traces spans e else e in
      if ltb 0 (length logs) then send_logs logs e1 else e1

  -- Both channels are read until they are empty.
  unfoldable pub drain : List ExportedSpan → List Text → OtlpExporter → OtlpExporter
  unfolding flush
  drain spans logs e =
      flush (spans ++ e.spans_chan) (logs ++ e.logs_chan)
        (record e { spans_chan = []; logs_chan = [] })

  abbrev pub receive_span : List ExportedSpan → OtlpExporter → OtlpExporter
  receive_span [] e = e
  receive_span (s ∷ rest) e = record e { spans_chan = rest; spans = e.spans ++ s ∷ [] }

  abbrev pub receive_log : List Text → OtlpExporter → OtlpExporter
  receive_log [] e = e
  receive_log (l ∷ rest) e = record e { logs_chan = rest; logs = e.logs ++ l ∷ [] }

  -- One round of `worker`, in the case that is chosen; a case whose channel is empty does not occur.
  unfoldable pub worker : Case → OtlpExporter → OtlpExporter
  unfolding flush drain
  worker on_span e = receive_span e.spans_chan e
  worker on_log e = receive_log e.logs_chan e
  worker on_tick e = record (flush e.spans e.logs e) { spans = []; logs = [] }
  worker on_stop e = record (drain e.spans e.logs e) { spans = []; logs = []; worker_alive = false }

  -- `Close` signals the stop and waits for the worker; closing a closed channel panics.
  unfoldable pub close : OtlpExporter → Option OtlpExporter
  unfolding worker
  close e = if e.worker_alive then some (worker on_stop e) else none
