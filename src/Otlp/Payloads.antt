-- ===== src/Otlp/Payloads.antt =====
-- observability/otlp_exporter.go: the payloads of the exporter, and how they are built from a batch.
use orkai_observability.Prelude.{◌+◌, List, Option, [], none, some, ℕ, ◌∷◌}
use orkai_observability.Prelude.Int64.{Int64, add}
use orkai_observability.Table.{or_zero}
use orkai_observability.Text.{Text, codes}
use orkai_observability.Text.Decimal.{format_int}
use orkai_observability.Tracer.{hex_encode}
use orkai_observability.Types.{Span}

pub record ExportedSpan : Type 0 where
  pub span : Span
  pub duration : Int64

pub record OtlpAnyValue : Type 0 where
  pub string_value : Text

pub record OtlpKeyValue : Type 0 where
  pub key : Text
  pub value : OtlpAnyValue

pub record OtlpResource : Type 0 where
  pub attributes : List OtlpKeyValue

pub record OtlpSpan : Type 0 where
  pub trace_id : Text
  pub span_id : Text
  pub name : Text
  pub kind : ℕ
  pub start_time_unix_nano : Text
  pub end_time_unix_nano : Text
  pub attributes : List OtlpKeyValue

pub record OtlpScopeSpan : Type 0 where
  pub spans : List OtlpSpan

pub record OtlpResourceSpan : Type 0 where
  pub resource : OtlpResource
  pub scope_spans : List OtlpScopeSpan

pub record OtlpTracesPayload : Type 0 where
  pub resource_spans : List OtlpResourceSpan

pub record OtlpLogRecord : Type 0 where
  pub time_unix_nano : Text
  pub body : OtlpAnyValue
  pub attributes : List OtlpKeyValue
  pub trace_id : Text

pub record OtlpScopeLog : Type 0 where
  pub log_records : List OtlpLogRecord

pub record OtlpResourceLog : Type 0 where
  pub resource : OtlpResource
  pub scope_logs : List OtlpScopeLog

pub record OtlpLogsPayload : Type 0 where
  pub resource_logs : List OtlpResourceLog

-- What `post` is given: its parameter is of any type, and its two callers pass these.
pub data Payload : Type 0 where
  traces_payload : OtlpTracesPayload → Payload
  logs_payload : OtlpLogsPayload → Payload

-- `genSpanID`, for its eight random bytes.
unfoldable pub gen_span_id : List ℕ → Text
gen_span_id bytes = hex_encode bytes

-- The resource of both payloads.
abbrev service_resource : Text → OtlpResource
service_resource service_name = record {
  attributes =
      record { key = codes "service.name"; value = record { string_value = service_name } } ∷ [];
}

-- `random` gives the bytes of `genSpanID` for a span by its place.
unfoldable pub build_spans : (ℕ → List ℕ) → ℕ → List ExportedSpan → List OtlpSpan
unfolding gen_span_id
build_spans random k [] = []
build_spans random k (s ∷ spans) =
    record {
      trace_id = s.span.trace_id;
      span_id = gen_span_id (random k);
      name = s.span.name;
      kind = 1;
      start_time_unix_nano = format_int s.span.start_time;
      end_time_unix_nano = format_int (add s.span.start_time s.duration);
      attributes = [];
    }
    ∷ build_spans random (k + 1) spans

-- What `json.Unmarshal` finds of a line: `none` if it fails, and else the texts under `msg` and
-- `trace_id`, if they are there.
abbrev pub Unmarshal : Type 0
Unmarshal = Text → Option (Option Text × Option Text)

abbrev pub body_of : Text → Option (Option Text × Option Text) → Text
body_of log_str none = log_str
body_of log_str (some (msg, tid)) = or_zero [] msg

abbrev pub trace_id_of : Option (Option Text × Option Text) → Text
trace_id_of none = []
trace_id_of (some (msg, tid)) = or_zero [] tid

-- `now` gives the clock for a line by its place.
unfoldable pub build_records : Unmarshal → (ℕ → ℕ) → ℕ → List Text → List OtlpLogRecord
build_records unmarshal now k [] = []
build_records unmarshal now k (log_str ∷ logs) =
    record {
      time_unix_nano = format_int (now k);
      body = record { string_value = body_of log_str (unmarshal log_str) };
      attributes = [];
      trace_id = trace_id_of (unmarshal log_str);
    }
    ∷ build_records unmarshal now (k + 1) logs

unfoldable pub build_traces_payload : Text → (ℕ → List ℕ) → List ExportedSpan → OtlpTracesPayload
unfolding build_spans
build_traces_payload service_name random spans = record {
  resource_spans =
      record {
        resource = service_resource service_name;
        scope_spans = record { spans = build_spans random 0 spans } ∷ [];
      }
      ∷ [];
}

unfoldable pub build_logs_payload : Text → Unmarshal → (ℕ → ℕ) → List Text → OtlpLogsPayload
unfolding build_records
build_logs_payload service_name unmarshal now logs = record {
  resource_logs =
      record {
        resource = service_resource service_name;
        scope_logs = record { log_records = build_records unmarshal now 0 logs } ∷ [];
      }
      ∷ [];
}
