-- ===== src/Facade/Sample.antt =====
-- Concrete inputs of the facade, for the modules of tests.
use orkai_observability.Otlp
use orkai_observability.Config.{Config}
use orkai_observability.Context.{foreign, background}
use orkai_observability.Facade.{Facade, Moment, empty_facade, in_memory, local}
use orkai_observability.Facade.Schedule.{
  Event, calls_latency, calls_log, calls_start_span, exporter_receives_log, exporter_ticks,
  ticks_telemetry, works_logger,
}
use orkai_observability.Float64.{thousandths}
use orkai_observability.Logger.Delivery.{new_json_logger}
use orkai_observability.Logger.Entries.{Ambient, logs_error}
use orkai_observability.Logger.Format.{sensitive_keys}
use orkai_observability.Metrics.Store.{new_in_memory_metrics}
use orkai_observability.Prelude.{◌+◌, List, [], false, none, some, true, ℕ, ◌∷◌}
use orkai_observability.RotatingFile.{Files, SystemCalls}
use orkai_observability.Text.{codes}
use orkai_observability.Tracer.{new_local_tracer}

abbrev pub ambient : Ambient ℕ
ambient = record {
  seconds = λ d. 0;
  now = 5;
  time_of_day = codes "10:00:00";
  sensitive = sensitive_keys;
  patterns = [];
  trace_stack = [];
  otel = λ ctx. none;
  frames = (codes "main.main", 9) ∷ [];
}

abbrev pub moment : Moment ℕ
moment = record {
  ambient = ambient;
  random = 219 ∷ 59 ∷ [];
  show_duration = λ d. codes "7ns";
  counter_meter = λ name. some 0;
  histogram_meter = λ name. some 0;
  gauge_meter = λ name. none;
  otel_context = λ ctx. foreign ctx 1;
  otel_trace_id = codes "cd";
  otel_span = 1;
}

abbrev pub clock : ℕ → Moment ℕ
clock n = record moment { ambient = record ambient { now = 5 + n } }

-- Without a log file, with an exporter.
abbrev pub config : Config ℕ
config = record {
  service_name = codes "svc";
  environment = codes "prod";
  log_level = codes "info";
  log_file_path = [];
  otlp_endpoint = codes "http://c";
  pprof_output_dir = [];
  otlp_headers = [];
  system_telemetry_interval = 0;
  slow_query_threshold = 100;
  export_interval = 0;
  pprof_profile_duration = 0;
  log_file_max_size = 0;
  rate_limit_burst = 0;
  rate_limit_rate = 0;
  async_log_channel_size = 2;
  log_file_max_backups = 0;
  enable_rate_limit = false;
  enable_async_log = true;
  enable_otel = false;
  enable_system_telemetry = true;
  enable_slow_query_alert = true;
  payload = record {
    enable_payload_logging = true;
    max_payload_log_size_bytes = 0;
    payload_logging_sample = 0;
  };
  pprof = record { enable_auto_pprof = true; goroutines_limit = 10; heap_threshold_bytes = 0 };
}

abbrev pub calls : SystemCalls
calls = record {
  close_fails = false;
  rename_fails = false;
  remove_fails = false;
  stat_fails = λ i. false;
  backup_rename_fails = λ i. false;
  open_fails = false;
  write_fails = false;
  written = 0;
}

abbrev pub no_files : Files
no_files n = none

abbrev pub collector : Otlp.Surroundings
collector = record {
  random = λ post item. item ∷ [];
  now = λ post item. item;
  unmarshal = λ line. none;
  respond = λ post. some 503;
}

abbrev pub events : List (Moment ℕ × Event ℕ)
events =
    (moment, calls_start_span background (codes "job"))
    ∷ (moment, calls_log (logs_error (codes "e")) (codes "hi") [])
    ∷ (moment, calls_latency (codes "job") 7)
    ∷ (
      moment,
      ticks_telemetry (record { goroutines = 30; heap_alloc = 1; heap_sys = 2; num_gc = 0 }),
    )
    ∷ (moment, works_logger)
    ∷ (moment, exporter_receives_log collector)
    ∷ (moment, exporter_ticks collector)
    ∷ []

-- The facade after `Init`, with the local tracer.
abbrev pub started : Facade ℕ
started = record (empty_facade {F = ℕ}) {
  instance_of = some (record {
    logger = new_json_logger true (codes "svc");
    metrics = in_memory (new_in_memory_metrics (codes "svc"));
    tracer = local (new_local_tracer (codes "svc") [] none);
    config = config;
  });
}
