-- ===== src/Facade/Lifecycle.antt =====
-- observability/observability.go: `Init` and `Close`. Whether the log file opens is decided by
-- RotatingFile; what is written to the writer is the list in the logger, for a file and for the
-- standard output alike. Both are an `io.Closer`.
pub mod Opening
pub mod Closing
pub mod Ending
mod Taking
mod Accepted
mod Accepting
pub mod Posting
pub mod Afterwards
mod Tests
use orkai_observability.Otlp
use orkai_observability.Config.{Config}
use orkai_observability.Facade.{
  Facade, Metering, Moment, Tracing, bridged, count_all, in_memory, local, spanned, with_logger,
  with_metrics,
}
use orkai_observability.Float64.{Float64}
use orkai_observability.Limiter.{LogRateLimiter, new_log_rate_limiter}
use orkai_observability.Logger.Delivery.{
  JsonLogger, close, configure_async, new_json_logger, set_environment, set_level, set_rate_limiter,
  set_trace_provider,
}
use orkai_observability.Metrics.Store.{new_in_memory_metrics}
use orkai_observability.Otel.{OtelMetrics, OtelTracer}
use orkai_observability.Otlp.{OtlpExporter, new_otlp_exporter}
use orkai_observability.Prelude.{
  Bool, Option, [], drop, if◌then◌else◌, false, none, some, true, ◌∷◌,
}
use orkai_observability.Prelude.Int64.{Int64, sle}
use orkai_observability.Profiler.{new_auto_profiler}
use orkai_observability.RotatingFile.{Error, Files, SystemCalls, new_rotating_file_writer}
use orkai_observability.Text.{Text, text_eq}
use orkai_observability.Tracer.{get_active_trace_id, new_local_tracer}

-- The default of `StartSystemTelemetry`: 10 s.
abbrev pub telemetry_interval : Int64 → Int64
telemetry_interval interval = if sle interval 0 then 10000000000 else interval

module _ {F : Type 0} where
  -- cancelSystemTelemetry()
  abbrev pub cancel_telemetry : Option Bool → Facade F → Facade F
  cancel_telemetry none g = g
  cancel_telemetry (some false) g = g
  cancel_telemetry (some true) g = record g { cancel = some false; loops = drop 1 g.loops }

module _ {F : Type 0} ⦃f : Float64 F⦄ (m : Moment F) where
  abbrev pub limiter_of : Config F → Option (LogRateLimiter F)
  limiter_of cfg =
      if cfg.enable_rate_limit
      then some (new_log_rate_limiter cfg.rate_limit_burst cfg.rate_limit_rate true m.ambient.now)
      else none

  abbrev pub configured : Config F → JsonLogger F
  configured cfg =
      let l = set_trace_provider (some get_active_trace_id) (
        set_level cfg.log_level
          (set_environment cfg.environment (new_json_logger true cfg.service_name))) in
      let limited = (if cfg.enable_rate_limit then set_rate_limiter (limiter_of cfg) l else l) in
      if cfg.enable_async_log
      then configure_async true cfg.async_log_channel_size limited
      else limited

  -- The error of opening the log file, if there is a path.
  abbrev pub open_log : SystemCalls → Files → Config F → Option Error
  open_log c files cfg =
      if text_eq cfg.log_file_path []
      then none
      else (new_rotating_file_writer c files cfg.log_file_max_size cfg.log_file_max_backups).1

  unfoldable pub init_logger : SystemCalls → Files → Config F → Option (JsonLogger F) × Option Error
  unfolding new_rotating_file_writer new_json_logger set_environment set_level set_trace_provider
      set_rate_limiter configure_async new_log_rate_limiter
  init_logger c files cfg = elim (open_log c files cfg) [
    | some err ↦ (none, some err)
    | none ↦ (some (configured cfg), none)
  ]

  abbrev pub new_otel_metrics : Text → OtelMetrics F
  new_otel_metrics service = record {
    local = new_in_memory_metrics service;
    counters = [];
    histograms = [];
    gauges = [];
    sent = [];
  }

  abbrev pub new_otel_tracer : OtelTracer
  new_otel_tracer = record { spans = []; ended = []; trace_stack = [] }

  unfoldable pub init_metrics_and_tracer : Config F → Metering F × Tracing
  unfolding new_in_memory_metrics new_local_tracer
  init_metrics_and_tracer cfg =
      if cfg.enable_otel
      then (bridged (new_otel_metrics cfg.service_name), spanned new_otel_tracer)
      else (
        in_memory (new_in_memory_metrics cfg.service_name),
        local (new_local_tracer cfg.service_name [] none),
      )

  unfoldable pub init_system_telemetry : Config F → Facade F → Facade F
  init_system_telemetry cfg g =
      if cfg.enable_system_telemetry
      then record g {
        cancel = some true;
        loops = telemetry_interval cfg.system_telemetry_interval ∷ g.loops;
      }
      else g

  -- `Init` after the logger is made.
  abbrev pub installed : Config F → JsonLogger F → Facade F → Facade F
  installed cfg logger g =
      let (s, t) = init_metrics_and_tracer cfg in
      let g' = init_system_telemetry cfg (record g {
        instance_of = some (record { logger = logger; metrics = s; tracer = t; config = cfg });
      }) in
      record g' {
        exporter = new_otlp_exporter cfg.otlp_endpoint cfg.service_name cfg.export_interval;
        profiler = some new_auto_profiler;
      }

  -- `initLogger` gives a logger or an error.
  abbrev pub install :
      Config F → Facade F → Option (JsonLogger F) × Option Error → Option Error × Facade F
  install cfg g (none, err) = (err, g)
  install cfg g (some logger, err) = (none, installed cfg logger g)

  unfoldable pub init : SystemCalls → Files → Config F → Facade F → Option Error × Facade F
  unfolding init_logger init_metrics_and_tracer init_system_telemetry new_otlp_exporter
      new_auto_profiler
  init c files cfg g = install cfg g (init_logger c files cfg)

  -- `Close` of the exporter; its calls of `Counter` reach the metrics of the instance, if there is one.
  abbrev pub close_exporter : Otlp.Surroundings → Option OtlpExporter → Facade F → Option (Facade F)
  close_exporter c none g = some g
  close_exporter c (some e) g = elim (Otlp.close c (record e { counted = [] })) [
    | none ↦ none
    | some e' ↦ some (
        with_metrics (count_all m e'.counted)
          (record g { exporter = some (record e' { counted = [] }) }))
  ]

  -- The end of `Close`: the logger.
  abbrev pub close_logger : Option (Facade F) → Option (Facade F)
  close_logger none = none
  close_logger (some g) = some (with_logger m close g)

  unfoldable pub close_all : Otlp.Surroundings → Facade F → Option (Facade F)
  unfolding Otlp.close close
  close_all c g =
      let g' = cancel_telemetry g.cancel g in close_logger (close_exporter c g'.exporter g')
