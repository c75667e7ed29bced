-- ===== src/Example.antt =====
-- cmd/api/main.go: the program that shows the use of the package. Each call of the package,
-- and the first `time.Now`, reads a moment of its own. A panic of `Latency` ends the program.
pub mod Laws
mod Tests
use orkai_observability.Config.{Config}
use orkai_observability.Context.{Context, background}
use orkai_observability.Facade.{Facade, Moment, empty_facade}
use orkai_observability.Facade.Calls.{counter, dump, end_span, latency, log_entry, start_span}
use orkai_observability.Facade.Lifecycle.{init}
use orkai_observability.Facade.Sample.{clock}
use orkai_observability.Float64.{Float64}
use orkai_observability.Logger.Entries.{logs_info_context}
use orkai_observability.Prelude.{List, Option, [], false, none, some, ℕ, ◌∷◌, ◌+◌}
use orkai_observability.RotatingFile.{Files, SystemCalls}
use orkai_observability.Text.{Text, codes}
use orkai_observability.Types.{Field, new_string_field, since, Span}

abbrev pub attempt_fields : List Field
attempt_fields =
    new_string_field (codes "email") (codes "john.doe@example.com")
    ∷ new_string_field (codes "password") (codes "super-secret-123")
    ∷ []

module _ {F : Type 0} ⦃f : Float64 F⦄ where
  -- The config of `main`; the other settings have the zero values of Go.
  abbrev pub config : Config F
  config = record {
    service_name = codes "auth-service";
    environment = codes "dev";
    log_level = codes "info";
    log_file_path = [];
    otlp_endpoint = [];
    pprof_output_dir = [];
    otlp_headers = [];
    system_telemetry_interval = 0;
    slow_query_threshold = 0;
    export_interval = 0;
    pprof_profile_duration = 0;
    log_file_max_size = 0;
    rate_limit_burst = 0;
    rate_limit_rate = 0;
    async_log_channel_size = 0;
    log_file_max_backups = 0;
    enable_rate_limit = false;
    enable_async_log = false;
    enable_otel = false;
    enable_system_telemetry = false;
    enable_slow_query_alert = false;
    payload = record {
      enable_payload_logging = false;
      max_payload_log_size_bytes = 0;
      payload_logging_sample = f.of_int 0;
    };
    pprof = record { enable_auto_pprof = false; goroutines_limit = 0; heap_threshold_bytes = 0 };
  }

module _ {F : Type 0} ⦃f : Float64 F⦄ (clock : ℕ → Moment F) where
  unfoldable pub mock_database_call : Context → Facade F → Facade F
  unfolding start_span log_entry counter end_span
  mock_database_call ctx g =
      let ((db_ctx, span), g1) = start_span (clock 4) ctx (codes "DatabaseQuery") g in
      let g2 =
        log_entry (clock 5) (logs_info_context db_ctx) (codes "executing select user query")
          (new_string_field (codes "table") (codes "users") ∷ []) g1 in
      end_span (clock 7) span (counter (clock 6) (codes "db_queries_total") g2)

  -- Up to the call of `Latency`: the span, the time of the start, and what the calls leave.
  abbrev pub before_latency : Facade F → Span × Facade F
  before_latency g =
      let ((ctx, span), g1) = start_span (clock 1) background (codes "LoginHandler") g in
      let g2 = log_entry (clock 2) (logs_info_context ctx) (codes "login request received") [] g1 in
      let g3 =
        log_entry (clock 3) (logs_info_context ctx) (codes "user login attempt") attempt_fields
          g2 in
      let g4 = mock_database_call ctx g3 in
      let g5 =
        log_entry (clock 8) (logs_info_context ctx) (codes "user authenticated successfully")
          (new_string_field (codes "role") (codes "admin") ∷ []) g4 in
      (span, counter (clock 9) (codes "login_requests_total") g5)

  -- The deferred `EndSpan`, if `Latency` returns.
  abbrev pub ended : Span → Option (Facade F) → Option (Facade F)
  ended span none = none
  ended span (some g) = some (end_span (clock 11) span g)

  unfoldable pub simulate_request : Facade F → Option (Facade F)
  unfolding start_span log_entry mock_database_call counter latency end_span
  simulate_request g =
      let (span, g1) = before_latency g in
      let d = since (clock 10).ambient.now (clock 13).ambient.now in
      ended span (latency (clock 10) (codes "login_duration") d g1)

  abbrev pub dumped : (F → Text) → Option (Facade F) → Option (Facade F)
  dumped show_float none = none
  dumped show_float (some g) = dump (clock 12) show_float g

  unfoldable pub main : (F → Text) → SystemCalls → Files → Option (Facade F)
  unfolding init simulate_request dump
  main show_float c files =
      dumped show_float (simulate_request (init (clock 0) c files config empty_facade).1)
